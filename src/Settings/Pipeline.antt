-- ===== src/Settings/Pipeline.antt =====
-- sniff4hound/packet_pipeline.py: what an accepted pipeline configuration contains.
use sniff4hound.Prelude.{
  ℕ, ◌≡◌, refl, sym, ap, true, Option, none, some, number_eq, inl, inr, Bool-cases, elem,
}
use sniff4hound.Prelude.Dict.{Dict, lookup}
use sniff4hound.Prelude.Text.{Text, text, list_eq}
use sniff4hound.Settings.{Value, int, Result, ok, err, is_numeric}
use sniff4hound.Settings.Coerce.{
  bounded_int, pipeline_bounds, coerce_fields, mode_of, persist_modes, with_mode, then_mode,
  coerce_pipeline_settings,
}
use sniff4hound.Settings.Fates.{Fits, within-Fits, Fate, absent, accepted, fields-Fate}
use sniff4hound.Settings.Accepted.{LimitFate, untouched, updated}

bounded_int-Fits :
    (name : Text) (low high n : ℕ) (value : Value)
    → bounded_int value name low high ≡ ok n
    → Fits low high n value
unfolding bounded_int
bounded_int-Fits name low high n value h = elim (Bool-cases (is_numeric value)) [
  | inl numeric ↦ within-Fits name low high n value (int value) refl (rw numeric at h)
  | inr wrong ↦ cc (rw wrong at h)
]

bounded-Fate :
    (name : Text) (low high : ℕ) (given : Option Value) (kept : Option ℕ)
    → Fate (λ value. bounded_int value name low high) given kept
    → LimitFate low high given kept
bounded-Fate name low high given kept (absent g k) = untouched g k
bounded-Fate name low high given kept (accepted value n g k c) =
    updated value n g k (bounded_int-Fits name low high n value c)

-- The mode of an accepted configuration.
pub data ModeFate (given : Option Value) (kept : Option Text) : Type 0 where
  no_mode : given ≡ none → kept ≡ none → ModeFate given kept
  mode :
      (value : Value)
      → given ≡ some value
      → kept ≡ some (mode_of value)
      → elem (mode_of value) persist_modes ≡ true
      → ModeFate given kept

ok_inj : (p q : Dict Text ℕ × Option Text) → ok p ≡ ok q → p ≡ q
ok_inj p q h = cc h

with_mode-ModeFate :
    (given : Option Value) (numbers clean : Dict Text ℕ) (kept : Option Text)
    → with_mode given numbers ≡ ok (clean, kept)
    → (numbers ≡ clean) × ModeFate given kept
with_mode-ModeFate none numbers clean kept h =
    let same = ok_inj (numbers, none) (clean, kept) h in
    (ap (λ p. p.0) same, no_mode refl (sym (ap (λ p. p.1) same)))
with_mode-ModeFate (some value) numbers clean kept h =
    elim (Bool-cases (elem (mode_of value) persist_modes)) [
      | inl known ↦
          let same = ok_inj (numbers, some (mode_of value)) (clean, kept) (rw known at h) in
          (ap (λ p. p.0) same, mode value refl (sym (ap (λ p. p.1) same)) known)
      | inr unknown ↦ cc (rw unknown at h)
    ]

then_mode-ModeFate :
    (given : Option Value) (numbers : Result (Dict Text ℕ)) (clean : Dict Text ℕ)
    (kept : Option Text)
    → then_mode given numbers ≡ ok (clean, kept)
    → (numbers ≡ ok clean) × ModeFate given kept
then_mode-ModeFate given (err e) clean kept h = cc h
then_mode-ModeFate given (ok numbers) clean kept h =
    let (same, fate) = with_mode-ModeFate given numbers clean kept h in (ap ok same, fate)

-- When an update of the pipeline is accepted, the cache limit and the number of jobs are left out
-- where the update lacks them and are otherwise integers within their bounds, and the mode is left
-- out or is one of the two modes.
pub coerce_pipeline_settings-LimitFate :
    (values : Dict Text Value) (clean : Dict Text ℕ) (kept : Option Text) (name : Text)
    (low high : ℕ)
    → coerce_pipeline_settings (some values) ≡ ok (clean, kept)
    → lookup name pipeline_bounds ≡ some (low, high)
    → LimitFate low high (lookup name values) (lookup name clean)
      × ModeFate (lookup (text "persist_mode") values) kept
unfolding coerce_pipeline_settings
coerce_pipeline_settings-LimitFate values clean kept name low high h b =
    let (numbers, fate) =
      then_mode-ModeFate (lookup (text "persist_mode") values)
        (coerce_fields bounded_int pipeline_bounds values) clean kept h in
    (
      bounded-Fate name low high (lookup name values) (lookup name clean)
          (fields-Fate bounded_int values pipeline_bounds clean name low high numbers b),
      fate,
    )
