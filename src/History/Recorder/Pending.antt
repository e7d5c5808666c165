-- ===== src/History/Recorder/Pending.antt =====
-- sniff4hound/history_recorder.py: what is pending, and what waits for another try, stays bounded.
use sniff4hound.Prelude.{
  nat_beq, nat_beq_iff, drop, ℕ, suc, ◌-◌, ◌*◌, ◌≤◌, ◌≡◌, refl, Bool, ◌&&◌, List, [], ◌∷◌, ◌++◌,
  arith, if◌then◌else◌, length, length-append, length-drop, if_elim, number_eq, pair_eq,
}
use sniff4hound.Prelude.Text.{is_empty, list_eq}
use sniff4hound.History.Recorder.{arp_key_eq, dns_key_eq, Recorder, init}
use sniff4hound.History.Recorder.Flush.{
  add_all, observe, last_items, flush, Action, observes, flushes, step, run,
}
use sniff4hound.History.Recorder.Bounded.{Bounded, remembered, add_all-Bounded}
use sniff4hound.History.Recorder.Bindings.{add_claim-Bounded}

-- `flush` has taken all that waits.
abbrev emptied : Recorder → Recorder
emptied r = record r {
  dns = [];
  arp = [];
  events = [];
  retry_dns = [];
  retry_arp = [];
  retry_events = [];
}

-- The write has failed, and what is kept waits for the next one.
abbrev write_failed : Recorder → Recorder
write_failed r =
    let n = r.max_pending * 4 in
    record (emptied r) {
      retry_dns = last_items n (r.retry_dns ++ r.dns);
      retry_arp = last_items n (r.retry_arp ++ r.arp);
      retry_events = last_items n (r.retry_events ++ r.events);
      write_errors = suc r.write_errors;
    }

module _ (m : ℕ) where
  length-last_items :
      {A : Type 0}
      → (n : ℕ) (items : List A) → (n ≡ 0 → length items ≡ 0)
      → length (last_items n items) ≤ n
  length-last_items n items none_left =
      if_elim {A = List _} {x = items} {y = drop (length items - n) items} (λ l. length l ≤ n)
        (nat_beq n 0) (λ h. let z = (nat_beq_iff n 0).0 h in omega (arith, none_left z))
        (λ h. omega (arith, length-drop (length items - n) items))

  kept_back-length :
      {A : Type 0}
      → (limit : ℕ) (old new : List A) → limit ≡ m
      → length old ≤ m * 4
      → length new ≤ m
      → length (last_items (limit * 4) (old ++ new)) ≤ m * 4
  kept_back-length limit old new same h k = omega (
    arith,
    same,
    length-last_items (limit * 4) (old ++ new)
        (λ z. omega (arith, same, length-append old new, h, k)),
  )

  failed-Bounded : (r : Recorder) → Bounded m r → Bounded m (write_failed r)
  failed-Bounded r b = record {
    limit = b.limit;
    dns_bound = omega arith;
    arp_bound = omega arith;
    events_bound = omega arith;
    retry_dns_bound =
        kept_back-length r.max_pending r.retry_dns r.dns b.limit b.retry_dns_bound b.dns_bound;
    retry_arp_bound =
        kept_back-length r.max_pending r.retry_arp r.arp b.limit b.retry_arp_bound b.arp_bound;
    retry_events_bound =
        kept_back-length r.max_pending r.retry_events r.events b.limit b.retry_events_bound
          b.events_bound;
  }

  emptied-Bounded : (r : Recorder) → Bounded m r → Bounded m (emptied r)
  emptied-Bounded r b = record {
    limit = b.limit;
    dns_bound = omega arith;
    arp_bound = omega arith;
    events_bound = omega arith;
    retry_dns_bound = omega arith;
    retry_arp_bound = omega arith;
    retry_events_bound = omega arith;
  }

  flush-Bounded : (r : Recorder) (written : Bool) → Bounded m r → Bounded m (flush r written)
  unfolding flush
  flush-Bounded r written b =
      let done : Recorder = record (emptied r) { flushes = suc r.flushes } in
      let dns = r.retry_dns ++ r.dns in
      let arp = r.retry_arp ++ r.arp in
      let events = r.retry_events ++ r.events in
      let empty = emptied-Bounded r b in
      if_elim {A = Recorder} {x = emptied r} {y = if written then done else write_failed r}
        (Bounded m) (is_empty dns && is_empty arp && is_empty events) (λ h. empty)
        (λ h.
          if_elim {A = Recorder} {x = done} {y = write_failed r} (Bounded m) written
            (λ w. remembered m (emptied r) done refl empty) (λ w. failed-Bounded r b))

  step-Bounded : (r : Recorder) (a : Action) → Bounded m r → Bounded m (step r a)
  unfolding step observe
  step-Bounded r (observes known observations arp observed_at now) b =
      add_claim-Bounded m (add_all r observations observed_at) known arp observed_at now
        (add_all-Bounded m r observations observed_at b)
  step-Bounded r (flushes written) b = flush-Bounded r written b

  run_from-Bounded :
      (r : Recorder) (actions : List Action) → Bounded m r → Bounded m (run r actions)
  unfolding run
  run_from-Bounded r [] b = b
  run_from-Bounded r (a ∷ actions) b = run_from-Bounded (step r a) actions (step-Bounded r a b)

  -- Whatever a new recorder observes, and however often the store fails, at most max_pending names,
  -- as many address pairs and as many events wait for a write, and at most four times as many of each
  -- are kept from writes that failed.
  pub run-Bounded_pending : (actions : List Action) → Bounded m (run (init m) actions)
  unfolding init
  run-Bounded_pending actions = run_from-Bounded (init m) actions (record {
    limit = refl;
    dns_bound = omega arith;
    arp_bound = omega arith;
    events_bound = omega arith;
    retry_dns_bound = omega arith;
    retry_arp_bound = omega arith;
    retry_events_bound = omega arith;
  })
