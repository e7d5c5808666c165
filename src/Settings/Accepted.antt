-- ===== src/Settings/Accepted.antt =====
-- What an accepted update contains, and which updates are accepted.
use sniff4hound.Prelude.{
  ℕ, ◌≡◌, refl, sym, Option, none, some, [], ◌∷◌, ◌==◌, number_eq, All, inl, inr, Bool-cases, subst,
}
use sniff4hound.Prelude.Dict.{Dict, lookup}
use sniff4hound.Prelude.Text.{Text, list_eq, list_beq_iff}
use sniff4hound.Settings.{Value, int, Error, unhandled_overflow, Result, ok, err, infinite}
use sniff4hound.Settings.Coerce.{
  coerce_limit, Bounds, limit_bounds, coerce_fields, coerce_limit_settings,
}
use sniff4hound.Settings.Fates.{
  Fits, coerce_limit-Fits, Fate, absent, accepted, fields-Fate, fields_total,
}

-- What becomes of a limit: an absent one stays absent, and one that is given is a number in its
-- bounds, which is kept as it is.
pub data LimitFate (low high : ℕ) (given : Option Value) (kept : Option ℕ) : Type 0 where
  untouched : given ≡ none → kept ≡ none → LimitFate low high given kept
  updated :
      (value : Value) (n : ℕ)
      → given ≡ some value
      → kept ≡ some n
      → Fits low high n value
      → LimitFate low high given kept

limit_fate :
    (name : Text) (low high : ℕ) (given : Option Value) (kept : Option ℕ)
    → Fate (λ value. coerce_limit value name low high) given kept
    → LimitFate low high given kept
limit_fate name low high given kept (absent g k) = untouched g k
limit_fate name low high given kept (accepted value n g k c) =
    updated value n g k (coerce_limit-Fits name low high n value c)

-- When an update of the limits is accepted, each known field that it lacks is left out of the result,
-- and each that it has reads as an integer within the field's bounds, which is the result's value.
pub coerce_limit_settings-LimitFate :
    (values : Dict Text Value) (clean : Dict Text ℕ) (name : Text) (low high : ℕ)
    → coerce_limit_settings (some values) ≡ ok clean
    → lookup name limit_bounds ≡ some (low, high)
    → LimitFate low high (lookup name values) (lookup name clean)
unfolding coerce_limit_settings
coerce_limit_settings-LimitFate values clean name low high h b =
    limit_fate name low high (lookup name values) (lookup name clean)
      (fields-Fate coerce_limit values limit_bounds clean name low high h b)

-- An update of the limits in which every known field that it has is a number within its bounds is
-- accepted, whatever else it contains.
pub coerce_limit_settings-accepts :
    (values : Dict Text Value)
    → All
        (λ b.
          (value : Value)
          → lookup b.0 values ≡ some value
          → (n : ℕ) × (coerce_limit value b.0 b.1.0 b.1.1 ≡ ok n))
        limit_bounds
    → (clean : Dict Text ℕ) × (coerce_limit_settings (some values) ≡ ok clean)
unfolding coerce_limit_settings
coerce_limit_settings-accepts values good = fields_total coerce_limit values limit_bounds good

module _ (coerce : Value → Text → ℕ → ℕ → Result ℕ) (value : Value) (name : Text) (e : Error) where
  fields_refused :
      (bounds : Bounds) (range : ℕ × ℕ)
      → ((low high : ℕ) → coerce value name low high ≡ err e)
      → lookup name bounds ≡ some range
      → coerce_fields coerce bounds ((name, value) ∷ []) ≡ err e
  unfolding lookup
  fields_refused [] range h b = cc b
  fields_refused ((other, (low, high)) ∷ bounds) range h b = elim (Bool-cases (name == other)) [
    | inl same ↦
        let at : name ≡ other = (list_beq_iff name other).0 same in
        rw (same, subst (λ k. coerce value k low high ≡ err e) at (h low high)) refl
    | inr differs ↦ elim (Bool-cases (other == name)) [
      | inl back ↦ let at : name ≡ other = sym ((list_beq_iff other name).0 back) in cc differs
      | inr apart ↦ rw differs (fields_refused bounds range h (rw apart at b))
    ]
  ]

-- A limit that is given as an infinite number, as a request can write it, ends in an error that the
-- function neither catches nor names, whatever the limit.
pub coerce_limit_settings_infinite :
    (name : Text) (range : ℕ × ℕ)
    → lookup name limit_bounds ≡ some range
    → coerce_limit_settings (some ((name, infinite) ∷ [])) ≡ err unhandled_overflow
unfolding coerce_limit_settings int
coerce_limit_settings_infinite name range b =
    fields_refused coerce_limit infinite name unhandled_overflow limit_bounds range
      (λ low high. unfold coerce_limit int in refl) b
