-- ===== src/Pipeline/Fifo.antt =====
-- The packet cache as a queue: any sequence of calls succeeds, and what leaves the cache leaves it
-- in the order in which it came, whether a job took it or the bound evicted it.
use mathlib.Core.Path.{ap₂}
use mathlib.Core.List.{append-nil, append_assoc, map-append}
use sniff4hound.Prelude.{
  ℕ, ◌+◌, ◌-◌, ◌≤◌, ◌<◌, ◌≡◌, refl, sym, ◌∙◌, ap, false, Option, none, some, List, [], ◌∷◌, ◌++◌,
  arith, length, drop, length-append, length-drop, drop_none, drop-drop, drop-append_le, All,
}
use sniff4hound.Pipeline.{PacketCache, append_item, put, Call, then_more, run}
use sniff4hound.Pipeline.Bounds.{Inv, put_lem}
use sniff4hound.Pipeline.Calls.{departed, delivered-append, IsPositive, Outcome, step-Outcome}

module _ {ℓ} {A : Type ℓ} where
  -- Two stretches of a history, one after the other.
  chain-Outcome :
      (c : PacketCache A) {r s : Option (PacketCache A × List A × List A)} (o : Outcome c r)
      (n : Outcome o.state s)
      → Outcome c (then_more (o.state, o.accepted, o.handed) s)
  chain-Outcome c o n = record {
    state = n.state;
    accepted = o.accepted ++ n.accepted;
    handed = o.handed ++ n.handed;
    log = o.log ++ n.log;
    result = rw n.result;
    inv = n.inv;
    room = n.room;
    fifo =
        ap (λ ys. ys ++ n.state.items) (map-append _ o.log n.log)
        ∙ append_assoc (departed o.log) (departed n.log) n.state.items
        ∙ ap (◌++◌ (departed o.log)) n.fifo
        ∙ sym (append_assoc (departed o.log) o.state.items n.accepted)
        ∙ ap (λ ys. ys ++ n.accepted) o.fifo
        ∙ append_assoc c.items o.accepted n.accepted;
    given = delivered-append o.log n.log ∙ ap₂ (λ xs ys. xs ++ ys) o.given n.given;
  }

  -- Every sequence of calls, from a cache that keeps its invariant and has a positive bound and
  -- with positive new bounds, runs with no failure to a state that keeps the invariant (at most
  -- `limit` items wait, the peak is no less, a closed cache is empty). There is a log of
  -- departures that, followed by what still waits, is what waited before followed by what was
  -- accepted, in that order; and its entries marked as handed out are what the jobs got, in order.
  pub run-Outcome :
      (c : PacketCache A) (calls : List (Call A))
      → Inv c
      → 0 < c.limit
      → All IsPositive calls
      → Outcome c (run c calls)
  unfolding run
  run-Outcome c [] v h p = record {
    state = c;
    accepted = [];
    handed = [];
    log = [];
    result = refl;
    inv = v;
    room = h;
    fifo = sym (append-nil c.items);
    given = refl;
  }
  run-Outcome c (call ∷ calls) v h p =
      let o = step-Outcome c call v h p.0 in
      let n = run-Outcome o.state calls o.inv o.room p.1 in rw (o.result, run) (chain-Outcome c o n)

  -- Puts of a burst, one after the other.
  unfoldable pub burst : PacketCache A → List A → Option (PacketCache A)
  burst c [] = some c
  burst c (x ∷ xs) = elim (put c x) [ none ↦ none | some (c', b) ↦ burst c' xs ]

  -- A burst into an open cache with a positive bound, which holds no more than its bound, never
  -- fails. What waits afterwards is exactly the newest `limit` items of what waited and the burst,
  -- in order; everything older is counted as dropped, and every item as accepted.
  pub burst_newest :
      (c : PacketCache A) (xs : List A)
      → c.closed ≡ false
      → 0 < c.limit
      → length c.items ≤ c.limit
      → (c' : PacketCache A) × (burst c xs ≡ some c')
        × (c'.items ≡ drop (length (c.items ++ xs) - c.limit) (c.items ++ xs))
        × (c'.dropped ≡ c.dropped + (length (c.items ++ xs) - c.limit))
        × (c'.accepted ≡ c.accepted + length xs)
  unfolding burst
  burst_newest c [] open_ h b =
      let size = length-append c.items [] in
      (
        c,
        refl,
        sym (append-nil c.items) ∙ sym (drop_none _ (c.items ++ []) (omega arith)),
        omega arith,
        omega arith,
      )
  burst_newest c (x ∷ xs) open_ h b =
      let n : ℕ = length c.items + 1 - c.limit in
      let kept : List A = drop n c.items in
      let less = length-drop n c.items in
      let one = length-append kept (x ∷ []) in
      let sum = length-append (kept ++ x ∷ []) xs in
      let all = length-append c.items (x ∷ xs) in
      let c' : PacketCache A = append_item c x (kept, c.dropped + n) in
      let (d, done, newest, lost, took) = burst_newest c' xs open_ h (omega arith) in
      (
        d,
        rw (put_lem c x open_ h, burst) done,
        newest
            ∙ ap (drop (length ((kept ++ x ∷ []) ++ xs) - c.limit))
                (append_assoc kept (x ∷ []) xs ∙ drop-append_le n c.items (x ∷ xs) (omega arith))
            ∙ drop-drop _ n (c.items ++ x ∷ xs)
            ∙ ap (λ k. drop k (c.items ++ x ∷ xs)) (omega arith),
        omega arith,
        omega arith,
      )
