-- ===== src/Ipc/Client/Pending.antt =====
-- The table of pending requests under `_fail_all_pending` (sniff4hound/ipc.py): which entries and
-- which calls a failure of one generation reaches.
use sniff4hound.Prelude.Dict.{Dict, lookup, insert, remove, lookup-remove}
use sniff4hound.Prelude.Window.{All-map}
use sniff4hound.Ipc.Client.{
  PendingCall, write_call, deliver, rides, doomed, pop_each, popped, onto_found, fail_each, failure,
}
use sniff4hound.Prelude.{
  ℕ, ◌≡◌, refl, ap, ◌∙◌, inl, inr, true, false, Option, none, some, List, [], ◌∷◌, map, arith,
  nat_beq, keep, All, Bool-cases, if_elim, ◌==◌, same_refl, number_eq, pair_eq, elem,
}

-- The call of an entry rides this generation.
abbrev pub Rides : ℕ → (ℕ → PendingCall) → ℕ × ℕ → Type 0
Rides generation calls entry = rides generation (calls (entry.1)) ≡ true

module _ (P : ℕ × ℕ → Type 0) where
  pub All-remove : (key : ℕ) (d : Dict ℕ ℕ) → All P d → All P (remove key d)
  unfolding remove
  All-remove key [] h = h
  All-remove key ((other, value) ∷ d) h =
      if_elim {A = Dict ℕ ℕ} {x = remove key d} {y = (other, value) ∷ remove key d} (All P)
        (other == key) (λ e. All-remove key d h.1) (λ e. (h.0, All-remove key d h.1))

  pub All-pop_each : (keys : List ℕ) (d : Dict ℕ ℕ) → All P d → All P (pop_each keys d)
  All-pop_each [] d h = h
  All-pop_each (key ∷ keys) d h = All-pop_each keys (remove key d) (All-remove key d h)

pub pop_each-nil : (keys : List ℕ) → pop_each keys [] ≡ []
unfolding remove
pop_each-nil [] = refl
pop_each-nil (key ∷ keys) = pop_each-nil keys

pub All-insert :
    (generation key call : ℕ) (calls : ℕ → PendingCall) (d : Dict ℕ ℕ)
    → rides generation (calls call) ≡ true
    → All (Rides generation calls) d
    → All (Rides generation calls) (insert key call d)
unfolding insert
All-insert generation key call calls [] r h = (r, tt)
All-insert generation key call calls ((other, old) ∷ d) r h = elim (Bool-cases (other == key)) [
  | inl same ↦ rw same (r, h.1)
  | inr differs ↦ rw differs (h.0, All-insert generation key call calls d r h.1)
]

-- Popping every key, or more, leaves nothing.
pop_each_everything :
    (keys : List ℕ) (d : Dict ℕ ℕ) → All (λ e. elem (e.0) keys ≡ true) d → pop_each keys d ≡ []
unfolding remove
pop_each_everything [] [] h = refl
pop_each_everything [] (e ∷ d) h = absurd (cc h.0)
pop_each_everything (key ∷ keys) d h = pop_each_everything keys (remove key d) (remaining d h)
  where
    remaining :
        (d : Dict ℕ ℕ)
        → All (λ e. elem (e.0) (key ∷ keys) ≡ true) d
        → All (λ e. elem (e.0) keys ≡ true) (remove key d)
    remaining [] h = tt
    remaining ((other, value) ∷ d) h = elim (Bool-cases (other == key)) [
      | inl same ↦ rw same (remaining d h.1)
      | inr differs ↦ rw differs (ground (arith, h.0), remaining d h.1)
    ]

own_keys : (d : Dict ℕ ℕ) → All (λ e. elem (e.0) (map (λ e. e.0) d) ≡ true) d
own_keys [] = tt
own_keys ((key, call) ∷ d) =
    (rw (same_refl key), All-map (λ e held. ground (arith, held)) d (own_keys d))

module _ (generation : ℕ) (calls : ℕ → PendingCall) where
  doomed_everything :
      (d : Dict ℕ ℕ) → All (Rides generation calls) d → doomed generation calls d ≡ map (λ e. e.0) d
  doomed_everything [] h = refl
  doomed_everything ((key, call) ∷ d) h = rw h.0 (ap (key ∷◌) (doomed_everything d h.1))

  -- When every entry rides the generation that fails, none is left.
  pub pop_each-doomed :
      (d : Dict ℕ ℕ) → All (Rides generation calls) d → pop_each (doomed generation calls d) d ≡ []
  pop_each-doomed d h =
      rw (doomed_everything d h) (pop_each_everything (map (λ e. e.0) d) d (own_keys d))

  pub doomed_none :
      (d : Dict ℕ ℕ)
      → All (λ e. rides generation (calls (e.1)) ≡ false) d
      → doomed generation calls d ≡ []
  doomed_none [] h = refl
  doomed_none (e ∷ d) h = rw h.0 (doomed_none d h.1)

-- Failing calls changes no generation.
pub fail_each_generation :
    (items : List ℕ) (error : List ℕ) (calls : ℕ → PendingCall) (call : ℕ)
    → (fail_each items error calls call).generation ≡ (calls call).generation
fail_each_generation [] error calls call = refl
fail_each_generation (item ∷ items) error calls call =
    fail_each_generation items error (write_call item (deliver (failure error)) calls) call
    ∙ ground arith

pub rides_same :
    (generation : ℕ) (a b : PendingCall)
    → b.generation ≡ a.generation
    → rides generation a ≡ true
    → rides generation b ≡ true
rides_same generation a b same h = rw same h

-- What `fail` puts into a call stays there: a call that is in the list has the failure.
fail_each_keeps :
    (items : List ℕ) (error : List ℕ) (calls : ℕ → PendingCall) (call : ℕ)
    → (calls call).message ≡ some (failure error)
    → (fail_each items error calls call).message ≡ some (failure error)
fail_each_keeps [] error calls call h = h
fail_each_keeps (item ∷ items) error calls call h =
    fail_each_keeps items error (write_call item (deliver (failure error)) calls) call
      (ground arith)

pub fail_each-elem :
    (items : List ℕ) (error : List ℕ) (calls : ℕ → PendingCall) (call : ℕ)
    → elem call items ≡ true
    → (fail_each items error calls call).message ≡ some (failure error)
fail_each-elem [] error calls call h = absurd (cc h)
fail_each-elem (item ∷ items) error calls call h =
    let next = write_call item (deliver (failure error)) calls in
    elim (Bool-cases (nat_beq item call)) [
      | inl same ↦ fail_each_keeps items error next call (ground arith)
      | inr differs ↦ fail_each-elem items error next call (ground arith)
    ]

-- A call that waits under a key of the list is among the popped ones.
pub popped-elem :
    (keys : List ℕ) (d : Dict ℕ ℕ) (key call : ℕ)
    → lookup key d ≡ some call
    → elem key keys ≡ true
    → elem call (popped keys d) ≡ true
popped-elem [] d key call found h = absurd (cc h)
popped-elem (k ∷ keys) d key call found h = elim (Bool-cases (k == key)) [
  | inl same ↦ rw (let e : k ≡ key = ground arith in e) (rw found (rw (same_refl call)))
  | inr differs ↦ later (lookup k d) (
      popped-elem keys (remove k d) key call (lookup-remove k key d ∙ rw differs found)
        (ground arith))
]
  where
    later :
        (found : Option ℕ)
        → elem call (popped keys (remove k d)) ≡ true
        → elem call (onto_found found (popped keys (remove k d))) ≡ true
    later none h = h
    later (some other) h = ground (arith, h)

pub doomed-elem :
    (generation : ℕ) (calls : ℕ → PendingCall) (d : Dict ℕ ℕ) (key call : ℕ)
    → lookup key d ≡ some call
    → rides generation (calls call) ≡ true
    → elem key (doomed generation calls d) ≡ true
unfolding lookup
doomed-elem generation calls [] key call found r = absurd (cc found)
doomed-elem generation calls ((k, c) ∷ d) key call found r = elim (Bool-cases (k == key)) [
  | inl same ↦ let e : c ≡ call = cc (rw same at found) in rw (e, r) (rw same refl)
  | inr differs ↦
      let rest = doomed-elem generation calls d key call (rw differs at found) r in
      if_elim {x = (k, c) ∷ keep (λ e. rides generation (calls (e.1))) d}
        {y = keep (λ e. rides generation (calls (e.1))) d}
        (λ kept. elem key (map (λ e. e.0) kept) ≡ true) (rides generation (calls c))
        (λ h. rw differs rest) (λ h. rest)
]

pub values-elem :
    (d : Dict ℕ ℕ) (key call : ℕ) → lookup key d ≡ some call → elem call (map (λ e. e.1) d) ≡ true
unfolding lookup
values-elem [] key call found = absurd (cc found)
values-elem ((k, c) ∷ d) key call found = ground (arith, values-elem d key call)
