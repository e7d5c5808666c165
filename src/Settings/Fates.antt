-- ===== src/Settings/Fates.antt =====
-- What becomes of the values of an update (sniff4hound/resource_guard.py and sniff4hound/packet_pipeline.py).
use sniff4hound.Prelude.{
  ℕ, ◌≤◌, ◌≡◌, refl, sym, ap, ◌∙◌, true, Option, none, some, [], ◌∷◌, arith, ◌==◌, number_eq, All,
  inl, inr, Bool-cases, subst,
}
use sniff4hound.Prelude.Dict.{Dict, lookup}
use sniff4hound.Prelude.Text.{Text, list_eq, list_beq_iff}
use sniff4hound.Settings.{
  Signed, Value, Parsed, parsed, value_error, overflow_error, type_error, int, Result, ok, err,
  is_numeric,
}
use sniff4hound.Settings.Coerce.{
  is_outside, within, is_null, coerce_limit, Bounds, with_field, coerce_field, coerce_fields,
}

-- The value is a number in the bounds: not negative, for no bound is.
pub record Fits (low high n : ℕ) (value : Value) : Type 0 where
  pub at_least : low ≤ n
  pub at_most : n ≤ high
  pub number : Signed
  pub read : int value ≡ parsed number
  pub sized : number.size ≡ n
  pub positive : number.is_negative ≡ true → n ≡ 0

pub within-Fits :
    (name : Text) (low high n : ℕ) (value : Value) (p : Parsed)
    → int value ≡ p
    → within name low high p ≡ ok n
    → Fits low high n value
within-Fits name low high n value value_error e h = cc
within-Fits name low high n value type_error e h = cc
within-Fits name low high n value overflow_error e h = cc
within-Fits name low high n value (parsed i) e h = elim (Bool-cases (is_outside low high i)) [
  | inl out ↦ cc (rw out at h)
  | inr inside ↦
      let same : i.size ≡ n = cc (rw inside at h) in
      record {
        at_least = ground arith;
        at_most = ground arith;
        number = i;
        read = e;
        sized = same;
        positive = λ negative. ground arith;
      }
]

pub coerce_limit-Fits :
    (name : Text) (low high n : ℕ) (value : Value)
    → coerce_limit value name low high ≡ ok n
    → Fits low high n value
unfolding coerce_limit
coerce_limit-Fits name low high n value h = elim (Bool-cases (is_null value)) [
  | inl null_ ↦ cc (rw null_ at h)
  | inr given ↦ elim (Bool-cases (is_numeric value)) [
    | inl numeric ↦ within-Fits name low high n value (int value) refl (rw (given, numeric) at h)
    | inr wrong ↦ cc (rw (given, wrong) at h)
  ]
]

-- What becomes of a field: an absent one stays absent, one that is given is what it stands for.
pub data Fate (coerce : Value → Result ℕ) (given : Option Value) (kept : Option ℕ) : Type 0 where
  absent : given ≡ none → kept ≡ none → Fate coerce given kept
  accepted :
      (value : Value) (n : ℕ)
      → given ≡ some value
      → kept ≡ some n
      → coerce value ≡ ok n
      → Fate coerce given kept

abbrev first_of : Option (ℕ × ℕ) → ℕ
first_of none = 0
first_of (some p) = p.0

abbrev second_of : Option (ℕ × ℕ) → ℕ
second_of none = 0
second_of (some p) = p.1

module _ (coerce : Value → Text → ℕ → ℕ → Result ℕ) (values : Dict Text Value) where
  -- How an update with one more field is accepted.
  data Added (name : Text) (low high : ℕ) (rest : Result (Dict Text ℕ)) (clean : Dict Text ℕ)
      : Type 0 where
    skipped : lookup name values ≡ none → rest ≡ ok clean → Added name low high rest clean
    added :
        (value : Value) (n : ℕ) (others : Dict Text ℕ)
        → lookup name values ≡ some value
        → coerce value name low high ≡ ok n
        → rest ≡ ok others
        → clean ≡ (name, n) ∷ others
        → Added name low high rest clean

  field-Added :
      (name : Text) (low high : ℕ) (given : Option Value) (rest : Result (Dict Text ℕ))
      (clean : Dict Text ℕ)
      → lookup name values ≡ given
      → coerce_field coerce name low high given rest ≡ ok clean
      → Added name low high rest clean
  field-Added name low high none rest clean e h = skipped e h
  field-Added name low high (some value) rest clean e h =
      go (coerce value name low high) rest refl refl h
    where
      go :
          (c : Result ℕ) (r : Result (Dict Text ℕ))
          → coerce value name low high ≡ c
          → rest ≡ r
          → with_field name c r ≡ ok clean
          → Added name low high rest clean
      go (err x) r ec er k = cc
      go (ok n) (err x) ec er k = cc
      go (ok n) (ok others) ec er k = added value n others e ec er (cc k)

  fields_absent :
      (bounds : Bounds) (clean : Dict Text ℕ) (name : Text)
      → coerce_fields coerce bounds values ≡ ok clean
      → lookup name values ≡ none
      → lookup name clean ≡ none
  unfolding lookup
  fields_absent [] clean name h a =
      let nothing : [] ≡ clean = cc h in subst (λ c. lookup name c ≡ none) nothing (refl)
  fields_absent ((other, (low, high)) ∷ bounds) clean name h a =
      elim (field-Added other low high (lookup other values) (coerce_fields coerce bounds values)
        clean refl h) [
          | skipped e r ↦ fields_absent bounds clean name r a
          | added value n others e c r shape ↦
              subst (λ c. lookup name c ≡ none) (sym shape)
                (elim (Bool-cases (other == name)) [
                  | inl same ↦
                      let at : other ≡ name = (list_beq_iff other name).0 same in
                      cc (ap (λ k. lookup k values) at, e, a)
                  | inr differs ↦ rw differs (fields_absent bounds others name r a)
                ])
        ]

  pub fields-Fate :
      (bounds : Bounds) (clean : Dict Text ℕ) (name : Text) (low high : ℕ)
      → coerce_fields coerce bounds values ≡ ok clean
      → lookup name bounds ≡ some (low, high)
      → Fate (λ value. coerce value name low high) (lookup name values) (lookup name clean)
  unfolding lookup
  fields-Fate [] clean name low high h b = cc b
  fields-Fate ((other, (l, u)) ∷ bounds) clean name low high h b =
      let rest = coerce_fields coerce bounds values in
      elim (Bool-cases (other == name)) [
        | inl same ↦
            let at : other ≡ name = (list_beq_iff other name).0 same in
            let lows : l ≡ low = ap first_of (rw same at b) in
            let highs : u ≡ high = ap second_of (rw same at b) in
            elim (field-Added other l u (lookup other values) rest clean refl h) [
              | skipped e r ↦
                  let gone : lookup name values ≡ none = ap (λ k. lookup k values) (sym at) ∙ e in
                  absent gone (fields_absent bounds clean name r gone)
              | added value n others e c r shape ↦
                  accepted value n (ap (λ k. lookup k values) (sym at) ∙ e)
                    (subst (λ c. lookup name c ≡ some n) (sym shape) (rw same refl))
                    (rw (sym at, sym lows, sym highs) c)
            ]
        | inr differs ↦
            let b' : lookup name bounds ≡ some (low, high) = rw differs at b in
            elim (field-Added other l u (lookup other values) rest clean refl h) [
              | skipped e r ↦ fields-Fate bounds clean name low high r b'
              | added value n others e c r shape ↦
                  subst
                    (λ c.
                      Fate (λ value. coerce value name low high) (lookup name values)
                        (lookup name c))
                    (sym shape) (rw differs (fields-Fate bounds others name low high r b'))
            ]
      ]

  pub fields_total :
      (bounds : Bounds)
      → All
          (λ b.
            (value : Value)
            → lookup b.0 values ≡ some value
            → (n : ℕ) × (coerce value b.0 b.1.0 b.1.1 ≡ ok n))
          bounds
      → (clean : Dict Text ℕ) × (coerce_fields coerce bounds values ≡ ok clean)
  fields_total [] good = ([], refl)
  fields_total ((name, (low, high)) ∷ bounds) good =
      let (others, r) = fields_total bounds good.1 in
      field_total name low high (lookup name values) (coerce_fields coerce bounds values) others r
        good.0 refl
    where
      field_total :
          (name : Text) (low high : ℕ) (given : Option Value) (rest : Result (Dict Text ℕ))
          (others : Dict Text ℕ)
          → rest ≡ ok others
          → ((value : Value)
              → lookup name values ≡ some value
              → (n : ℕ) × (coerce value name low high ≡ ok n))
          → lookup name values ≡ given
          → (clean : Dict Text ℕ) × (coerce_field coerce name low high given rest ≡ ok clean)
      field_total name low high none rest others r good e = (others, r)
      field_total name low high (some value) rest others r good e =
          let (n, c) = good value e in ((name, n) ∷ others, rw (c, r) refl)
