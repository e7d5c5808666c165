-- ===== src/ResourceGuard/Cooldown.antt =====
-- sniff4hound/resource_guard.py: a pause lasts for the cooldown, and ends under the threshold.
use sniff4hound.Prelude.{
  ℕ, ◌++◌, ◌∙◌, ◌-◌, ◌≤◌, ◌<◌, ◌≡◌, refl, sym, ap, Bool, true, false, List, [], ◌∷◌, arith, inl,
  inr, Bool-cases, All, subst,
}
use sniff4hound.ResourceGuard.{
  PerKind, Config, Guard, count_all, exceeded_of, below_resume, resume, is_nonempty, has_cooled,
  observe, decide, sample, reset_counters, persist, Event, samples, resets, operator_stops,
  operator_starts, step, run,
}
use sniff4hound.ResourceGuard.Pauses.{trips_now, resumes_now, waits, decide-Decision, sample_elim}

-- The samples come before the cooldown is over, and no operator starts the sniffer.
abbrev pub Early : ℕ → Event → Type 0
Early since (samples c m writes now) = now - since < c.cooldown_seconds
Early since (resets writes now) = Unit
Early since operator_stops = Unit
Early since operator_starts = ⊥

-- Paused by the guard since then, with the sniffer stopped.
pub record Held (since : ℕ) (g : Guard) : Type 0 where
  pub paused : g.paused_by_guard ≡ true
  pub held_since : g.paused_since ≡ since
  pub stopped : g.capturing ≡ false

early_cools :
    (c : Config) (since now : ℕ) (g : Guard)
    → now - since < c.cooldown_seconds
    → g.paused_since ≡ since
    → has_cooled c now g ≡ false
early_cools c since now g h e = ground arith

sample-Held :
    (since : ℕ) (c : Config) (m : PerKind) (writes : Bool) (now : ℕ) (g : Guard)
    → now - since < c.cooldown_seconds
    → Held since g
    → Held since (sample c m writes now g)
sample-Held since c m writes now g early h =
    let o : Guard = observe c m g in
    let ho : Held since o =
      unfold observe in
      record { paused = h.paused; held_since = h.held_since; stopped = h.stopped } in
    sample_elim (Held since) c m writes now g
      (λ g' k. record { paused = k.paused; held_since = k.held_since; stopped = k.stopped })
      (elim (decide-Decision c m now o) [
        | trips_now free full e ↦ cc (ho.paused, free)
        | resumes_now held cool low e ↦ cc (early_cools c since now o early ho.held_since, cool)
        | waits e ↦ subst (Held since) (sym e) ho
      ])

step-Held :
    (since : ℕ) (g : Guard) (e : Event) → Early since e → Held since g → Held since (step g e)
unfolding step reset_counters persist
step-Held since g (samples c m writes now) early h = sample-Held since c m writes now g early h
step-Held since g (resets writes now) early h = ground (arith, h.paused, h.held_since, h.stopped)
step-Held since g operator_stops early h = record {
  paused = h.paused;
  held_since = h.held_since;
  stopped = refl;
}
step-Held since g operator_starts early h = absurd early

-- Once the guard has paused the capture, it stays paused and stopped over any events before the
-- cooldown is over, however low the values fall, unless an operator starts the sniffer.
pub run-Held :
    (since : ℕ) (g : Guard) (events : List Event)
    → All (Early since) events
    → Held since g
    → Held since (run g events)
unfolding run
run-Held since g [] early h = h
run-Held since g (e ∷ events) early h =
    run-Held since (step g e) events early.1 (step-Held since g e early.0 h)

decide-capturing :
    (c : Config) (m : PerKind) (now : ℕ) (g : Guard)
    → g.paused_by_guard ≡ true
    → has_cooled c now g ≡ true
    → below_resume c.limits m c.resume_percent ≡ true
    → (decide c m now (observe c m g)).0.capturing ≡ true
unfolding decide observe resume
decide-capturing c m now g paused cool low =
    elim (Bool-cases (is_nonempty (exceeded_of (count_all c.limits m g.over)))) [
      | inl full ↦ rw (full, paused, cool, low) refl
      | inr free ↦ rw (free, paused, cool, low) refl
    ]

run-append : (g : Guard) (early late : List Event) → run g (early ++ late) ≡ run (run g early) late
unfolding run
run-append g [] late = refl
run-append g (e ∷ early) late = run-append (step g e) early late

-- The guard does not see that an operator stops the capture during a pause: whatever happened in the
-- pause before its cooldown was over, and whatever comes afterwards, all is as if nobody had. And so the
-- first sample under the resume share after the cooldown starts the capture over that stop.
pub run-unseen_stop :
    (since : ℕ) (g : Guard) (early late : List Event) (c : Config) (m : PerKind) (writes : Bool)
    (now : ℕ)
    → Held since g
    → All (Early since) early
    → c.cooldown_seconds ≤ now - since
    → below_resume c.limits m c.resume_percent ≡ true
    → (run g (early ++ operator_stops ∷ late) ≡ run g (early ++ late))
      × ((run g (early ++ operator_stops ∷ samples c m writes now ∷ [])).capturing ≡ true)
unfolding run step
run-unseen_stop since g early late c m writes now h e cool low =
    let paused : Guard = run g early in
    let held = run-Held since g early e h in
    let same : record paused { capturing = false } ≡ paused =
      ap (λ b. record paused { capturing = b }) (sym held.stopped) in
    let cooled : has_cooled c now paused ≡ true =
      let s = held.held_since in ground (arith, s, cool) in
    (
      run-append g early (operator_stops ∷ late)
          ∙ ap (λ p. run p late) same
          ∙ sym (run-append g early late),
      subst (λ r. r.capturing ≡ true)
          (sym (run-append g early (operator_stops ∷ samples c m writes now ∷ [])))
          (sample_elim (λ r. r.capturing ≡ true) c m writes now
            (record paused { capturing = false }) (λ h k. k)
            (decide-capturing c m now (record paused { capturing = false }) held.paused cooled
              low)),
    )
