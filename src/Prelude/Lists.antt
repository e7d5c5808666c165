-- ===== src/Prelude/Lists.antt =====
-- Lists measured and indexed by native numbers, under the library's names.
use Prim.Native.Nat.{ℕ, zero, suc, ◌+◌, ◌-◌, ◌≤◌, min}
use mathlib.Core.Path.{◌≡◌, refl, sym, ap}
use mathlib.Core.Logic.{◌⊎◌, inl, inr}
use mathlib.Core.Bool.{Bool, false, ◌||◌}
use mathlib.Core.List.{List, [], ◌∷◌, ◌++◌}
use mathlib.Core.Option.{Option, none, some}
use native.Mathlib.Omega.{arith}
use sniff4hound.Prelude.Tests.{PyEq, ◌==◌, if◌then◌else◌}

module _ {ℓ} {A : Type ℓ} where
  abbrev pub length : List A → ℕ
  length [] = 0
  length (x ∷ xs) = suc (length xs)

  abbrev pub get_elem? : List A → ℕ → Option A
  get_elem? [] i = none
  get_elem? (x ∷ xs) zero = some x
  get_elem? (x ∷ xs) (suc i) = get_elem? xs i

  abbrev pub take : ℕ → List A → List A
  take zero xs = []
  take (suc n) [] = []
  take (suc n) (x ∷ xs) = x ∷ take n xs

  abbrev pub drop : ℕ → List A → List A
  drop zero xs = xs
  drop (suc n) [] = []
  drop (suc n) (x ∷ xs) = drop n xs

  -- A Boolean filter, as a comprehension has it.
  abbrev pub keep : (A → Bool) → List A → List A
  keep p [] = []
  keep p (x ∷ xs) = if p x then x ∷ keep p xs else keep p xs

  abbrev pub any : (A → Bool) → List A → Bool
  any p [] = false
  any p (x ∷ xs) = p x || any p xs

  abbrev pub All {κ} : (A → Type κ) → List A → Type κ
  All P [] = Unit
  All P (x ∷ xs) = P x × All P xs

module _ {ℓ} {A : Type ℓ} where
  pub List-cases : (xs : List A) → (xs ≡ []) ⊎ ((x : A) × (r : List A) × (xs ≡ x ∷ r))
  List-cases [] = inl refl
  List-cases (x ∷ r) = inr (x, r, refl)

  pub length-append : (xs ys : List A) → length (xs ++ ys) ≡ length xs + length ys
  length-append [] ys = omega arith
  length-append (x ∷ xs) ys = omega (arith, length-append xs ys)

  pub length-drop : (n : ℕ) (xs : List A) → length (drop n xs) ≡ length xs - n
  length-drop zero xs = omega arith
  length-drop (suc n) [] = omega arith
  length-drop (suc n) (x ∷ xs) = omega (arith, length-drop n xs)

  pub length-take : (n : ℕ) (xs : List A) → length (take n xs) ≡ min n (length xs)
  length-take zero xs = omega arith
  length-take (suc n) [] = omega arith
  length-take (suc n) (x ∷ xs) = omega (arith, length-take n xs)

  pub length-keep-le : (p : A → Bool) (xs : List A) → length (keep p xs) ≤ length xs
  length-keep-le p [] = omega arith
  length-keep-le p (x ∷ xs) = ground (arith, length-keep-le p xs)

  pub take-append-drop : (n : ℕ) (xs : List A) → take n xs ++ drop n xs ≡ xs
  take-append-drop zero xs = refl
  take-append-drop (suc n) [] = refl
  take-append-drop (suc n) (x ∷ xs) = rw (take-append-drop n xs)

  pub drop-nil : (n : ℕ) → drop {A = A} n [] ≡ []
  drop-nil zero = refl
  drop-nil (suc n) = refl

  pub take-nil : (n : ℕ) → take {A = A} n [] ≡ []
  take-nil zero = refl
  take-nil (suc n) = refl

  pub drop_none : (n : ℕ) (xs : List A) → n ≡ 0 → drop n xs ≡ xs
  drop_none n xs h = rw h

  pub take_none : (n : ℕ) (xs : List A) → n ≡ 0 → take n xs ≡ []
  take_none n xs h = rw h

  pub drop_more : (n m : ℕ) (x : A) (xs : List A) → n ≡ suc m → drop n (x ∷ xs) ≡ drop m xs
  drop_more n m x xs h = rw h

  pub take_more : (n m : ℕ) (x : A) (xs : List A) → n ≡ suc m → take n (x ∷ xs) ≡ x ∷ take m xs
  take_more n m x xs h = rw h

  pub drop-drop : (m n : ℕ) (xs : List A) → drop m (drop n xs) ≡ drop (n + m) xs
  drop-drop m zero xs = rw (let e : zero + m ≡ m = omega arith in e)
  drop-drop zero (suc n) [] = rw (let e : suc n + 0 ≡ suc n = omega arith in e)
  drop-drop (suc m) (suc n) [] = rw (let e : suc n + suc m ≡ suc (n + suc m) = omega arith in e)
  drop-drop m (suc n) (x ∷ xs) =
      rw (let e : suc n + m ≡ suc (n + m) = omega arith in e) (drop-drop m n xs)

  pub drop-append_le :
      (n : ℕ) (xs ys : List A) → n ≤ length xs → drop n xs ++ ys ≡ drop n (xs ++ ys)
  drop-append_le zero xs ys h = refl
  drop-append_le (suc n) [] ys h = absurd (omega arith)
  drop-append_le (suc n) (x ∷ xs) ys h = drop-append_le n xs ys (omega arith)

  pub take-append : (xs ys : List A) (n : ℕ) → length xs ≡ n → take n (xs ++ ys) ≡ xs
  take-append [] ys n h = take_none n ys (sym h)
  take-append (x ∷ xs) ys zero h = absurd (omega arith)
  take-append (x ∷ xs) ys (suc n) h = ap (◌∷◌ x) (take-append xs ys n (omega arith))

  pub drop-append : (xs ys : List A) (n : ℕ) → length xs ≡ n → drop n (xs ++ ys) ≡ ys
  drop-append [] ys n h = drop_none n ys (sym h)
  drop-append (x ∷ xs) ys zero h = absurd (omega arith)
  drop-append (x ∷ xs) ys (suc n) h = drop-append xs ys n (omega arith)

  -- The bytes that come first, and the others, in two steps.
  pub take-append_more :
      (xs ys : List A) (n : ℕ) → length xs ≤ n → take n (xs ++ ys) ≡ xs ++ take (n - length xs) ys
  take-append_more [] ys n h = rw (let e : n - 0 ≡ n = omega arith in e)
  take-append_more (x ∷ xs) ys zero h = absurd (omega arith)
  take-append_more (x ∷ xs) ys (suc n) h =
      rw (let e : suc n - suc (length xs) ≡ n - length xs = omega arith in e)
        (ap (◌∷◌ x) (take-append_more xs ys n (omega arith)))

  pub drop-append_more :
      (xs ys : List A) (n : ℕ) → length xs ≤ n → drop n (xs ++ ys) ≡ drop (n - length xs) ys
  drop-append_more [] ys n h = rw (let e : n - 0 ≡ n = omega arith in e)
  drop-append_more (x ∷ xs) ys zero h = absurd (omega arith)
  drop-append_more (x ∷ xs) ys (suc n) h =
      rw (let e : suc n - suc (length xs) ≡ n - length xs = omega arith in e)
        (drop-append_more xs ys n (omega arith))

  pub All-append {κ} : (P : A → Type κ) (xs ys : List A) → All P xs → All P ys → All P (xs ++ ys)
  All-append P [] ys h k = k
  All-append P (x ∷ xs) ys h k = (h.0, All-append P xs ys h.1 k)

  pub All-drop {κ} : (P : A → Type κ) (n : ℕ) (xs : List A) → All P xs → All P (drop n xs)
  All-drop P zero xs h = h
  All-drop P (suc n) [] h = h
  All-drop P (suc n) (x ∷ xs) h = All-drop P n xs h.1

-- Membership by `in`.
module _ {ℓ} {A : Type ℓ} ⦃e : PyEq A⦄ where
  abbrev pub elem : A → List A → Bool
  elem a [] = false
  elem a (x ∷ xs) = x == a || elem a xs

  -- `set.add`, with the elements in the order in which they came.
  abbrev pub set_add : A → List A → List A
  set_add a xs = if elem a xs then xs else xs ++ a ∷ []

  pub elem-append : (a : A) (xs ys : List A) → elem a (xs ++ ys) ≡ (elem a xs || elem a ys)
  elem-append a [] ys = refl
  elem-append a (x ∷ xs) ys = ground (arith, elem-append a xs ys)

  pub elem-set_add : (a b : A) (xs : List A) → elem b (set_add a xs) ≡ (a == b || elem b xs)
  elem-set_add a b xs = ground (arith, elem-append b xs (a ∷ []), e.same_iff a b)
