-- ===== src/Prelude/Window.antt =====
-- Deques of times: `while d and test(d[0]): d.popleft()`, and what it means when the times rise.
use Prim.Native.Nat.{ℕ, ◌≤◌}
use mathlib.Core.Path.{◌≡◌, refl, sym, ap}
use mathlib.Core.Logic.{inl, inr}
use mathlib.Core.Bool.{Bool, true, false, not}
use mathlib.Core.Option.{Option, none, some}
use mathlib.Core.List.{List, [], ◌∷◌, ◌++◌}
use native.Mathlib.Omega.{arith}
use sniff4hound.Prelude.Tests.{if◌then◌else◌, Bool-cases}
use sniff4hound.Prelude.Lists.{length, keep, All, All-append}

module _ {ℓ} {A : Type ℓ} where
  abbrev pub popleft_while : (A → Bool) → List A → List A
  popleft_while test [] = []
  popleft_while test (x ∷ xs) = if test x then popleft_while test xs else x ∷ xs

  -- d[-1]
  abbrev pub last? : List A → Option A
  last? [] = none
  last? (x ∷ []) = some x
  last? (x ∷ y ∷ xs) = last? (y ∷ xs)

-- The times do not fall along the list, and none is later than `now`.
abbrev pub Rising : List ℕ → Type 0
Rising [] = Unit
Rising (x ∷ xs) = All (λ y. x ≤ y) xs × Rising xs

module _ {ℓ} {A : Type ℓ} where
  pub length-popleft_while-le :
      (test : A → Bool) (xs : List A) → length (popleft_while test xs) ≤ length xs
  length-popleft_while-le test [] = omega arith
  length-popleft_while-le test (x ∷ xs) = ground (arith, length-popleft_while-le test xs)

  pub keep-All : (p : A → Bool) (xs : List A) → All (λ x. p x ≡ true) xs → keep p xs ≡ xs
  keep-All p [] h = refl
  keep-All p (x ∷ xs) h = rw h.0 (ap (◌∷◌ x) (keep-All p xs h.1))

  pub All-popleft_while {κ} :
      (P : A → Type κ) (test : A → Bool) (xs : List A) → All P xs → All P (popleft_while test xs)
  All-popleft_while P test [] h = h
  All-popleft_while P test (x ∷ xs) h = elim (Bool-cases (test x)) [
    | inl old ↦ rw old (All-popleft_while P test xs h.1)
    | inr recent ↦ rw recent h
  ]

pub All-map {ℓ κ μ} :
    {A : Type ℓ} {P : A → Type κ} {Q : A → Type μ} (f : (a : A) → P a → Q a) (xs : List A)
    → All P xs
    → All Q xs
All-map f [] h = tt
All-map f (x ∷ xs) h = (f x h.0, All-map f xs h.1)

pub Rising-popleft_while :
    (test : ℕ → Bool) (xs : List ℕ) → Rising xs → Rising (popleft_while test xs)
Rising-popleft_while test [] h = h
Rising-popleft_while test (x ∷ xs) h = elim (Bool-cases (test x)) [
  | inl old ↦ rw old (Rising-popleft_while test xs h.1)
  | inr recent ↦ rw recent h
]

pub Rising-snoc :
    (xs : List ℕ) (now : ℕ) → Rising xs → All (λ t. t ≤ now) xs → Rising (xs ++ now ∷ [])
Rising-snoc [] now r h = (tt, tt)
Rising-snoc (x ∷ xs) now r h =
    (All-append (λ y. x ≤ y) xs (now ∷ []) r.0 (h.0, tt), Rising-snoc xs now r.1 h.1)

stays :
    (test : ℕ → Bool) (x y : ℕ)
    → (test y ≡ true → test x ≡ true)
    → test x ≡ false
    → not (test y) ≡ true
stays test x y mono recent = elim (Bool-cases (test y)) [ inl old ↦ cc (mono old) | inr e ↦ rw e ]

-- On rising times a test that older times pass too is a filter.
pub popleft_while-keep :
    (test : ℕ → Bool) (xs : List ℕ)
    → ((s t : ℕ) → s ≤ t → test t ≡ true → test s ≡ true)
    → Rising xs
    → popleft_while test xs ≡ keep (λ t. not (test t)) xs
popleft_while-keep test [] mono r = refl
popleft_while-keep test (x ∷ xs) mono r = elim (Bool-cases (test x)) [
  | inl old ↦ rw old (popleft_while-keep test xs mono r.1)
  | inr recent ↦ rw recent (
      ap (◌∷◌ x) (
        sym (
          keep-All (λ t. not (test t)) xs
            (All-map (λ y le. stays test x y (mono x y le) recent) xs r.0))))
]
