-- ===== src/ResourceGuard/Pauses.antt =====
-- sniff4hound/resource_guard.py: when the guard pauses the capture, how long, and what it counts.
use sniff4hound.Prelude.{
  ℕ, ◌+◌, ◌-◌, ◌<◌, ◌≡◌, refl, sym, Bool, true, false, not, ◌&&◌, List, [], ◌∷◌, arith,
  if◌then◌else◌, if_elim, subst,
}
use sniff4hound.ResourceGuard.{
  PerKind, Config, GuardState, Guard, exceeded_of, below_resume, trip, resume, persist, is_nonempty,
  has_cooled, observe, decide, sample, start, reset_counters, Event, samples, resets,
  operator_stops, operator_starts, step, run,
}

-- What a sample does to a guard that has measured.
pub data Decision (c : Config) (m : PerKind) (now : ℕ) (g after : Guard) : Type 0 where
  trips_now :
      g.paused_by_guard ≡ false
      → is_nonempty (exceeded_of g.over) ≡ true
      → after ≡ trip (exceeded_of g.over) now g
      → Decision c m now g after
  resumes_now :
      g.paused_by_guard ≡ true
      → has_cooled c now g ≡ true
      → below_resume c.limits m c.resume_percent ≡ true
      → after ≡ resume now g
      → Decision c m now g after
  waits : after ≡ g → Decision c m now g after

both : (a b : Bool) → (a && b) ≡ true → (a ≡ true) × (b ≡ true)
both true b h = (refl, h)
both false b h = cc

pub decide-Decision :
    (c : Config) (m : PerKind) (now : ℕ) (g : Guard) → Decision c m now g (decide c m now g).0
unfolding decide
decide-Decision c m now g =
    if_elim {A = Guard × Bool} (λ r. Decision c m now g r.0)
      (is_nonempty (exceeded_of g.over) && not g.paused_by_guard)
      (λ h.
        let (full, free) = both _ _ h in
        trips_now (ground arith) full (unfold trip exceeded_of in refl))
      (λ h.
        if_elim {A = Guard × Bool} (λ r. Decision c m now g r.0)
          (g.paused_by_guard && has_cooled c now g && below_resume c.limits m c.resume_percent)
          (λ k.
            let (first, low) = both _ _ k in
            let (held, cool) = both _ _ first in resumes_now held cool low (unfold resume in refl))
          (λ k. waits refl))

-- A sample is its decision, but for what is stored.
pub sample_elim :
    (P : Guard → Type 0) (c : Config) (m : PerKind) (writes : Bool) (now : ℕ) (g : Guard)
    → ((h : Guard) → P h → P (record h { stored = h.state; last_write = now }))
    → P (decide c m now (observe c m g)).0
    → P (sample c m writes now g)
unfolding sample persist
sample_elim P c m writes now g keeps h =
    let g' = (decide c m now (observe c m g)).0 in
    if_elim {A = Guard} {y = g'} P _
      (λ k. if_elim {A = Guard} {y = g'} P writes (λ w. keeps g' h) (λ w. h)) (λ k. h)

-- The flag in memory, the flag that is shown and the reason agree.
pub record Agrees (g : Guard) : Type 0 where
  pub shown : g.state.paused ≡ g.paused_by_guard
  pub reasoned : is_nonempty g.state.reason ≡ g.paused_by_guard

sample-Agrees :
    (c : Config) (m : PerKind) (writes : Bool) (now : ℕ) (g : Guard)
    → Agrees g
    → Agrees (sample c m writes now g)
sample-Agrees c m writes now g a =
    sample_elim Agrees c m writes now g (λ h b. record { shown = b.shown; reasoned = b.reasoned })
      (let observed : Agrees (observe c m g) =
          unfold observe in record { shown = a.shown; reasoned = a.reasoned } in
        elim (decide-Decision c m now (observe c m g)) [
          | trips_now free full e ↦
              subst Agrees (sym e) (unfold trip in record { shown = refl; reasoned = full })
          | resumes_now held cool low e ↦
              subst Agrees (sym e) (unfold resume in record { shown = refl; reasoned = refl })
          | waits e ↦ subst Agrees (sym e) observed
        ])

step-Agrees : (g : Guard) (e : Event) → Agrees g → Agrees (step g e)
unfolding step reset_counters persist
step-Agrees g (samples c m writes now) a = sample-Agrees c m writes now g a
step-Agrees g (resets writes now) a = ground (arith, a.shown, a.reasoned)
step-Agrees g operator_stops a = record { shown = a.shown; reasoned = a.reasoned }
step-Agrees g operator_starts a = record { shown = a.shown; reasoned = a.reasoned }

run_from-Agrees : (g : Guard) (events : List Event) → Agrees g → Agrees (run g events)
unfolding run
run_from-Agrees g [] a = a
run_from-Agrees g (e ∷ events) a = run_from-Agrees (step g e) events (step-Agrees g e a)

-- In a new process, whose stored state gives a reason just when it is paused, and after any events,
-- the state that is shown is paused, and has a reason, exactly when the guard itself paused the
-- capture; a pause that an earlier process left is not shown.
pub run-Agrees :
    (stored : GuardState) (capturing : Bool) (events : List Event)
    → is_nonempty stored.reason ≡ stored.paused
    → Agrees (run (start stored capturing) events)
run-Agrees stored capturing events h =
    run_from-Agrees (start stored capturing) events (unfold start in ground (arith, h))

-- Did a pause begin?
abbrev pub begins_pause : Guard → Guard → ℕ
begins_pause g after = if not g.paused_by_guard && after.paused_by_guard then 1 else 0

-- A sample counts a trip exactly when it begins a pause, and until a pause is over it adds nothing to
-- the time that the capture was paused.
pub record Counted (now : ℕ) (g after : Guard) : Type 0 where
  pub counted : after.state.counters.trips ≡ g.state.counters.trips + begins_pause g after
  pub timed :
      after.paused_by_guard ≡ g.paused_by_guard
      → after.state.counters.paused_seconds ≡ g.state.counters.paused_seconds
  pub ended :
      g.paused_by_guard ≡ true
      → after.paused_by_guard ≡ false
      → 0 < g.paused_since
      → after.state.counters.paused_seconds
        ≡ g.state.counters.paused_seconds + (now - g.paused_since)

-- Every sample counts a trip exactly when it begins a pause; it adds the length of a pause to the
-- paused time when it ends one that began after time 0, and nothing when it neither begins nor ends
-- one.
pub sample-Counted :
    (c : Config) (m : PerKind) (writes : Bool) (now : ℕ) (g : Guard)
    → Counted now g (sample c m writes now g)
unfolding observe
sample-Counted c m writes now g =
    let o : Guard = observe c m g in
    sample_elim (Counted now g) c m writes now g
      (λ h k. record { counted = k.counted; timed = k.timed; ended = k.ended })
      (elim (decide-Decision c m now o) [
        | trips_now free full e ↦ subst (Counted now g) (sym e) (unfold trip in ground arith)
        | resumes_now held cool low e ↦
            subst (Counted now g) (sym e) (unfold resume in ground arith)
        | waits e ↦ subst (Counted now g) (sym e) (ground arith)
      ])
