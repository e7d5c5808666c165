-- ===== src/Settings/Coerce.antt =====
-- sniff4hound/packet_pipeline.py: _bounded_int and coerce_pipeline_settings; sniff4hound/resource_guard.py:
-- coerce_limit_settings. The `except (TypeError, ValueError)` of both lets an OverflowError through.
use sniff4hound.Prelude.{
  ℕ, Bool, true, false, ◌&&◌, ◌||◌, Option, none, some, List, [], ◌∷◌, ltb, if◌then◌else◌,
  number_eq, elem,
}
use sniff4hound.Prelude.Dict.{Dict, lookup}
use sniff4hound.Prelude.Text.{Text, text, strip, lower, list_eq}
use sniff4hound.Settings.{
  Signed, Value, null, string, Parsed, parsed, value_error, overflow_error, type_error, int,
  must_be_object, unhandled_overflow, must_be_number, must_be_integer, must_be_between,
  must_be_one_of, Result, ok, err, is_numeric,
}

-- number < low or number > high, where no bound is negative
abbrev pub is_outside : ℕ → ℕ → Signed → Bool
is_outside low high n =
    if n.is_negative && ltb 0 n.size then true else ltb n.size low || ltb high n.size

abbrev pub within : Text → ℕ → ℕ → Parsed → Result ℕ
within name low high value_error = err (must_be_integer name)
within name low high type_error = err (must_be_integer name)
within name low high overflow_error = err unhandled_overflow
within name low high (parsed n) =
    if is_outside low high n then err (must_be_between name low high) else ok n.size

unfoldable pub bounded_int : Value → Text → ℕ → ℕ → Result ℕ
bounded_int value name low high =
    if is_numeric value then within name low high (int value) else err (must_be_integer name)

-- The body of coerce_limit_settings for one field.
abbrev pub is_null : Value → Bool
is_null value = elim value [ null ↦ true | _ ↦ false ]

unfoldable pub coerce_limit : Value → Text → ℕ → ℕ → Result ℕ
coerce_limit value name low high =
    if is_null value
    then err (must_be_number name)
    else (if is_numeric value then within name low high (int value) else err (must_be_integer name))

abbrev pub Bounds : Type 0
Bounds = Dict Text (ℕ × ℕ)

unfoldable pub limit_bounds : Bounds
limit_bounds =
    (text "cpu_percent", (0, 100))
    ∷ (text "ram_mb", (0, 262144))
    ∷ (text "storage_mb", (0, 10485760))
    ∷ (text "resume_percent", (10, 99))
    ∷ (text "sample_seconds", (1, 300))
    ∷ (text "cooldown_seconds", (0, 3600))
    ∷ []

abbrev pub with_field : Text → Result ℕ → Result (Dict Text ℕ) → Result (Dict Text ℕ)
with_field name (err e) rest = err e
with_field name (ok n) (err e) = err e
with_field name (ok n) (ok clean) = ok ((name, n) ∷ clean)

-- Each field that the update has, in the order of the bounds; the first error is raised.
abbrev pub coerce_field :
    (Value → Text → ℕ → ℕ → Result ℕ)
    → Text
    → ℕ
    → ℕ
    → Option Value
    → Result (Dict Text ℕ)
    → Result (Dict Text ℕ)
coerce_field coerce name low high none rest = rest
coerce_field coerce name low high (some value) rest =
    with_field name (coerce value name low high) rest

abbrev pub coerce_fields :
    (Value → Text → ℕ → ℕ → Result ℕ) → Bounds → Dict Text Value → Result (Dict Text ℕ)
coerce_fields coerce [] values = ok []
coerce_fields coerce ((name, (low, high)) ∷ bounds) values =
    coerce_field coerce name low high (lookup name values) (coerce_fields coerce bounds values)

-- No dict of values stands for a request that is not an object.
unfoldable pub coerce_limit_settings : Option (Dict Text Value) → Result (Dict Text ℕ)
unfolding coerce_limit limit_bounds
coerce_limit_settings none = err must_be_object
coerce_limit_settings (some values) = coerce_fields coerce_limit limit_bounds values

unfoldable pub pipeline_bounds : Bounds
pipeline_bounds = (text "cache_limit", (1000, 1000000)) ∷ (text "jobs", (1, 16)) ∷ []

-- str(value or "").strip().lower(): what is not a text prints as no mode.
abbrev pub mode_of : Value → Text
mode_of value = elim value [ string s ↦ lower (strip s) | _ ↦ [] ]

abbrev pub persist_modes : List Text
persist_modes = text "alerts" ∷ text "all" ∷ []

abbrev pub with_mode : Option Value → Dict Text ℕ → Result (Dict Text ℕ × Option Text)
with_mode none clean = ok (clean, none)
with_mode (some value) clean =
    if elem (mode_of value) persist_modes
    then ok (clean, some (mode_of value))
    else err (must_be_one_of (text "persist_mode"))

abbrev pub then_mode : Option Value → Result (Dict Text ℕ) → Result (Dict Text ℕ × Option Text)
then_mode value (err e) = err e
then_mode value (ok clean) = with_mode value clean

-- The numbers of the clean settings, and the mode.
unfoldable pub coerce_pipeline_settings :
    Option (Dict Text Value) → Result (Dict Text ℕ × Option Text)
unfolding bounded_int pipeline_bounds
coerce_pipeline_settings none = err must_be_object
coerce_pipeline_settings (some values) =
    then_mode (lookup (text "persist_mode") values)
      (coerce_fields bounded_int pipeline_bounds values)
