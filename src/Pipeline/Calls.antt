-- ===== src/Pipeline/Calls.antt =====
-- The calls of the packet cache (sniff4hound/pipeline.py), one at a time: what each returns, and what leaves.
use mathlib.Core.List.{append-nil, append_assoc}
use sniff4hound.Prelude.{
  ℕ, ◌+◌, ◌-◌, ◌<◌, ◌≡◌, refl, sym, ◌∙◌, ap, inl, inr, Bool, true, false, Option, some, List, [],
  ◌∷◌, ◌++◌, map, arith, if◌then◌else◌, Bool-cases, List-cases, length, take, drop,
  take-append-drop,
}
use sniff4hound.Pipeline.{
  PacketCache, append_item, Call, puts, gets_many, gets, sets_limit, resets, closes, step,
}
use sniff4hound.Pipeline.Bounds.{
  Inv, put_closed, put_lem, append_item-Inv, shrink_lem, take_many_lem, drop-Inv, tail-Inv,
  shrink-Inv, get_empty, get_oldest,
}

-- The items that left a cache, oldest first, each with a mark that says whether a job got it.
abbrev pub Log {ℓ} : Type ℓ → Type ℓ
Log A = List (A × Bool)

module _ {ℓ} {A : Type ℓ} where
  abbrev pub departed : Log A → List A
  departed = map (λ entry. entry.0)

  abbrev pub delivered : Log A → List A
  delivered [] = []
  delivered ((x, b) ∷ log) = if b then x ∷ delivered log else delivered log

  abbrev mark : Bool → List A → Log A
  mark b = map (λ x. (x, b))

  departed-mark : (b : Bool) (xs : List A) → departed (mark b xs) ≡ xs
  departed-mark b [] = refl
  departed-mark b (x ∷ xs) = ap (◌∷◌ x) (departed-mark b xs)

  delivered-mark-true : (xs : List A) → delivered (mark true xs) ≡ xs
  delivered-mark-true [] = refl
  delivered-mark-true (x ∷ xs) = ap (◌∷◌ x) (delivered-mark-true xs)

  delivered-mark-false : (xs : List A) → delivered (mark false xs) ≡ []
  delivered-mark-false [] = refl
  delivered-mark-false (x ∷ xs) = delivered-mark-false xs

  pub delivered-append : (l m : Log A) → delivered (l ++ m) ≡ delivered l ++ delivered m
  delivered-append [] m = refl
  delivered-append ((x, true) ∷ l) m = ap (◌∷◌ x) (delivered-append l m)
  delivered-append ((x, false) ∷ l) m = delivered-append l m

-- A bound of zero would make `put` fail, so the calls set positive ones, as the settings do.
abbrev pub IsPositive {ℓ} : {A : Type ℓ} → Call A → Type 0
IsPositive (sets_limit n) = 0 < n
IsPositive (puts x) = Unit
IsPositive (gets_many n) = Unit
IsPositive gets = Unit
IsPositive resets = Unit
IsPositive closes = Unit

-- A result that is no failure, keeps the invariant, and is explained by a log of departures.
pub record Outcome {ℓ} {A : Type ℓ} (c : PacketCache A)
    (r : Option (PacketCache A × List A × List A)) : Type ℓ where
  pub state : PacketCache A
  pub accepted : List A
  pub handed : List A
  pub log : Log A
  pub result : r ≡ some (state, accepted, handed)
  pub inv : Inv state
  pub room : 0 < state.limit
  pub fifo : departed log ++ state.items ≡ c.items ++ accepted
  pub given : delivered log ≡ handed

module _ {ℓ} {A : Type ℓ} where
  evicted_first : (n : ℕ) (xs : List A) (b : Bool) → departed (mark b (take n xs)) ++ drop n xs ≡ xs
  evicted_first n xs b =
      ap (λ ys. ys ++ drop n xs) (departed-mark b (take n xs)) ∙ take-append-drop n xs

  puts-Outcome : (c : PacketCache A) (x : A) → Inv c → 0 < c.limit → Outcome c (step c (puts x))
  unfolding step
  puts-Outcome c x v h = elim (Bool-cases c.closed) [
    | inl shut ↦ record {
      state = c;
      accepted = [];
      handed = [];
      log = [];
      result = rw (put_closed c x shut);
      inv = v;
      room = h;
      fifo = sym (append-nil c.items);
      given = refl;
    }
    | inr open_ ↦
        let n : ℕ = length c.items + 1 - c.limit in
        record {
          state = append_item c x (drop n c.items, c.dropped + n);
          accepted = x ∷ [];
          handed = [];
          log = mark false (take n c.items);
          result = rw (put_lem c x open_ h);
          inv = append_item-Inv c x open_ h;
          room = h;
          fifo =
              sym (append_assoc (departed (mark false (take n c.items))) (drop n c.items) (x ∷ []))
              ∙ ap (λ ys. ys ++ x ∷ []) (evicted_first n c.items false);
          given = delivered-mark-false (take n c.items);
        }
  ]

  gets_many-Outcome :
      (c : PacketCache A) (limit : ℕ) → Inv c → 0 < c.limit → Outcome c (step c (gets_many limit))
  unfolding step
  gets_many-Outcome c limit v h = record {
    state = record c { items = drop (limit - 0) c.items };
    accepted = [];
    handed = take (limit - 0) c.items;
    log = mark true (take (limit - 0) c.items);
    result = rw (take_many_lem limit [] c.items (omega arith));
    inv = drop-Inv c (limit - 0) v;
    room = h;
    fifo = evicted_first (limit - 0) c.items true ∙ sym (append-nil c.items);
    given = delivered-mark-true (take (limit - 0) c.items);
  }

  gets-Outcome : (c : PacketCache A) → Inv c → 0 < c.limit → Outcome c (step c gets)
  unfolding step
  gets-Outcome c v h = elim (List-cases c.items) [
    | inl e ↦ record {
      state = c;
      accepted = [];
      handed = [];
      log = [];
      result = rw (get_empty c e);
      inv = v;
      room = h;
      fifo = sym (append-nil c.items);
      given = refl;
    }
    | inr (x, xs, e) ↦ record {
      state = record c { items = xs };
      accepted = [];
      handed = x ∷ [];
      log = (x, true) ∷ [];
      result = rw (get_oldest c x xs e);
      inv = tail-Inv c x xs e v;
      room = h;
      fifo = sym (append-nil c.items ∙ e);
      given = refl;
    }
  ]

  sets_limit-Outcome :
      (c : PacketCache A) (n : ℕ) → Inv c → 0 < n → Outcome c (step c (sets_limit n))
  unfolding step
  sets_limit-Outcome c n v h =
      let k : ℕ = length c.items - n in
      record {
        state = record c { items = drop k c.items; limit = n; dropped = c.dropped + k };
        accepted = [];
        handed = [];
        log = mark false (take k c.items);
        result = rw (shrink_lem n c.items c.dropped);
        inv = shrink-Inv c n (c.dropped + k) v;
        room = h;
        fifo = evicted_first k c.items false ∙ sym (append-nil c.items);
        given = delivered-mark-false (take k c.items);
      }

  resets-Outcome : (c : PacketCache A) → Inv c → 0 < c.limit → Outcome c (step c resets)
  unfolding step
  resets-Outcome c v h = record {
    state = record c { accepted = 0; dropped = 0; peak = length c.items };
    accepted = [];
    handed = [];
    log = [];
    result = refl;
    inv = record { bounded = v.bounded; peaked = omega arith; drained = v.drained };
    room = h;
    fifo = sym (append-nil c.items);
    given = refl;
  }

  closes-Outcome : (c : PacketCache A) → Inv c → 0 < c.limit → Outcome c (step c closes)
  unfolding step
  closes-Outcome c v h = record {
    state = record c { closed = true; items = [] };
    accepted = [];
    handed = [];
    log = mark false c.items;
    result = refl;
    inv = record { bounded = omega arith; peaked = omega arith; drained = λ e. refl };
    room = h;
    fifo = ap (λ ys. ys ++ []) (departed-mark false c.items);
    given = delivered-mark-false c.items;
  }

  pub step-Outcome :
      (c : PacketCache A) (call : Call A)
      → Inv c
      → 0 < c.limit
      → IsPositive call
      → Outcome c (step c call)
  step-Outcome c (puts x) v h p = puts-Outcome c x v h
  step-Outcome c (gets_many n) v h p = gets_many-Outcome c n v h
  step-Outcome c gets v h p = gets-Outcome c v h
  step-Outcome c (sets_limit n) v h p = sets_limit-Outcome c n v p
  step-Outcome c resets v h p = resets-Outcome c v h
  step-Outcome c closes v h p = closes-Outcome c v h
