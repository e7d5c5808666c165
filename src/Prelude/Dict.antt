-- ===== src/Prelude/Dict.antt =====
-- Python's `dict`: keys in the order of their insertion, an update in place.
use Prim.Native.Nat.{◌+◌, ◌≤◌, ◌<◌}
use mathlib.Core.Path.{◌≡◌, refl}
use mathlib.Core.List.{List, [], ◌∷◌}
use mathlib.Core.Option.{Option, none, some}
use native.Mathlib.Omega.{arith}
use sniff4hound.Prelude.Tests.{PyEq, ◌==◌, if◌then◌else◌, same_refl}
use sniff4hound.Prelude.Lists.{length}

abbrev pub Dict {ℓ κ} : Type ℓ → Type κ → Type (ℓ ⊔ κ)
Dict K V = List (K × V)

module _ {ℓ κ} {K : Type ℓ} {V : Type κ} ⦃e : PyEq K⦄ where
  -- d.get(key)
  unfoldable pub lookup : K → Dict K V → Option V
  lookup key [] = none
  lookup key ((other, value) ∷ rest) = if other == key then some value else lookup key rest

  -- d[key] = value: in place, or at the end.
  unfoldable pub insert : K → V → Dict K V → Dict K V
  insert key value [] = (key, value) ∷ []
  insert key value ((other, old) ∷ rest) =
      let written = insert key value rest in
      let found = other == key in
      (other, if found then value else old) ∷ (if found then rest else written)

  -- d.pop(key, None)
  unfoldable pub remove : K → Dict K V → Dict K V
  remove key [] = []
  remove key ((other, value) ∷ rest) =
      if other == key then remove key rest else (other, value) ∷ remove key rest

  -- What a key finds after a write, and after a `pop`.
  pub lookup-insert :
      (key other : K) (value : V) (d : Dict K V)
      → lookup other (insert key value d) ≡ (if key == other then some value else lookup other d)
  unfolding lookup insert
  lookup-insert key other value [] = refl
  lookup-insert key other value ((held, old) ∷ d) =
      let rest = lookup-insert key other value d in
      ground (arith, rest, e.same_iff held other, e.same_iff held key, e.same_iff key other)

  pub lookup-remove :
      (k j : K) (m : Dict K V) → lookup j (remove k m) ≡ (if k == j then none else lookup j m)
  unfolding lookup remove
  lookup-remove k j [] = ground arith
  lookup-remove k j ((i, w) ∷ m) =
      ground (arith, e.same_iff k j, e.same_iff i k, e.same_iff i j, lookup-remove k j m)

  pub lookup-insert_self : (k : K) (v : V) (m : Dict K V) → lookup k (insert k v m) ≡ some v
  lookup-insert_self k v m = rw (lookup-insert k k v m, same_refl k)

  pub lookup-remove_self : (k : K) (m : Dict K V) → lookup k (remove k m) ≡ none
  lookup-remove_self k m = rw (lookup-remove k k m, same_refl k)

  -- A new key makes the dict one longer, a known one leaves its size.
  pub length-insert_new :
      (k : K) (v : V) (m : Dict K V) → lookup k m ≡ none → length (insert k v m) ≡ length m + 1
  unfolding lookup insert
  length-insert_new k v [] h = omega arith
  length-insert_new k v ((j, w) ∷ m) h = ground (arith, length-insert_new k v m)

  pub length-insert_known :
      (k : K) (v w : V) (m : Dict K V) → lookup k m ≡ some w → length (insert k v m) ≡ length m
  unfolding lookup insert
  length-insert_known k v w [] h = ground arith
  length-insert_known k v w ((j, u) ∷ m) h = ground (arith, length-insert_known k v w m)

  pub length-remove-le : (k : K) (m : Dict K V) → length (remove k m) ≤ length m
  unfolding remove
  length-remove-le k [] = omega arith
  length-remove-le k ((j, w) ∷ m) = ground (arith, length-remove-le k m)

  pub length-remove_known :
      (k : K) (w : V) (m : Dict K V) → lookup k m ≡ some w → length (remove k m) < length m
  unfolding lookup remove
  length-remove_known k w [] h = ground arith
  length-remove_known k w ((j, u) ∷ m) h =
      ground (arith, length-remove_known k w m, length-remove-le k m)
