-- ===== src/Jobs/Pool/Settle.antt =====
-- `_settle` keeps the pool accounted for: a replaced worker is surplus until it leaves.
use sniff4hound.Prelude.{
  ℕ, ◌+◌, ◌≤◌, ◌≡◌, refl, ap, ◌∙◌, Bool, true, false, ◌||◌, Option, none, some, arith,
  if◌then◌else◌, get_elem?, All, inl, inr, Bool-cases,
}
use sniff4hound.Jobs.Core.{
  Outcome, returned, raised, Phase, Job, JobQueue, modify, settled_job, replaces, settle_job, hires,
  settle, in_phase,
}
use sniff4hound.Jobs.Modify.{
  total, total-modify, total-modify_same, modify-none, All-modify, All-get_elem?,
  InOrder-modify_keeps,
}
use sniff4hound.Jobs.Pool.{held, lost, JobOk, Inv}

module _ {R E : Type 0} where
  settled_job-JobOk :
      (j : Job R E) (o : Outcome R E) (b : Bool) (now : ℕ)
      → JobOk j
      → (b ≡ true → in_phase Phase.handling j ≡ true)
      → j.is_done ≡ false
      → JobOk (settled_job (record j { abandoned = b || j.abandoned }) o now)
  settled_job-JobOk j (returned r) b now v h e = ground arith
  settled_job-JobOk j (raised x) b now v h e = ground arith

  replaces-handling :
      (q : JobQueue R E) (j : Job R E) (late : Bool)
      → JobOk j
      → j.is_done ≡ false
      → replaces q j late ≡ true
      → in_phase Phase.handling j ≡ true
  unfolding replaces
  replaces-handling q j late v e h = v.started_held e (ground arith)

  settle_job-JobOk :
      (q : JobQueue R E) (o : Outcome R E) (late : Bool) (now : ℕ) (j : Job R E)
      → JobOk j
      → JobOk (settle_job q o late now j)
  unfolding settle_job
  settle_job-JobOk q o late now j v = elim (Bool-cases j.is_done) [
    | inl old ↦ simp (old, settle_job) v
    | inr new ↦
        simp (new, settle_job)
          (settled_job-JobOk j o (replaces q j late) now v (replaces-handling q j late v new) new)
  ]

  pub settle_job-phase :
      (q : JobQueue R E) (o : Outcome R E) (late : Bool) (now : ℕ) (j : Job R E)
      → (settle_job q o late now j).phase ≡ j.phase
  unfolding settle_job
  settle_job-phase q (returned r) late now j = ground arith
  settle_job-phase q (raised e) late now j = ground arith

  pub settle_job-held :
      (q : JobQueue R E) (o : Outcome R E) (late : Bool) (now : ℕ) (j : Job R E)
      → held (settle_job q o late now j) ≡ held j
  settle_job-held q o late now j = ground (arith, settle_job-phase q o late now j)

  pub settle_job-waiting :
      (q : JobQueue R E) (o : Outcome R E) (late : Bool) (now : ℕ) (j : Job R E)
      → in_phase Phase.waiting (settle_job q o late now j) ≡ in_phase Phase.waiting j
  settle_job-waiting q o late now j = ground (arith, settle_job-phase q o late now j)

  settled_job-lost :
      (j : Job R E) (o : Outcome R E) (b : Bool) (now : ℕ)
      → j.abandoned ≡ false
      → (b ≡ true → in_phase Phase.handling j ≡ true)
      → lost (settled_job (record j { abandoned = b || j.abandoned }) o now)
        ≡ lost j + (if b then 1 else 0)
  settled_job-lost j (returned r) b now a h = ground arith
  settled_job-lost j (raised e) b now a h = ground arith

  settle_job-lost :
      (q : JobQueue R E) (o : Outcome R E) (late : Bool) (now : ℕ) (j : Job R E)
      → JobOk j
      → lost (settle_job q o late now j) ≡ lost j + hires q (some j) late
  unfolding settle_job hires
  settle_job-lost q o late now j v = elim (Bool-cases j.is_done) [
    | inl old ↦ simp (old, settle_job, hires) (omega arith)
    | inr new ↦
        let kept : j.abandoned ≡ false = ground (arith, v.abandoned_done) in
        simp (new, settle_job, hires)
          (settled_job-lost j o (replaces q j late) now kept (replaces-handling q j late v new))
  ]

  hires-room :
      (q : JobQueue R E) (j : Option (Job R E)) (late : Bool)
      → q.surplus ≤ q.worker_limit
      → q.surplus + hires q j late ≤ q.worker_limit
  unfolding hires replaces
  hires-room q none late h = omega arith
  hires-room q (some j) late h = ground arith

  settle_lost_at :
      (q : JobQueue R E) (i : ℕ) (o : Outcome R E) (late : Bool) (now : ℕ)
      (found : Option (Job R E))
      → All JobOk q.jobs
      → get_elem? q.jobs i ≡ found
      → total lost (modify q.jobs i (settle_job q o late now))
        ≡ total lost q.jobs + hires q found late
  settle_lost_at q i o late now none each e =
      ap (total lost) (modify-none (settle_job q o late now) q.jobs i e)
      ∙ unfold hires in omega arith
  settle_lost_at q i o late now (some j) each e = omega (
    arith,
    total-modify lost (settle_job q o late now) q.jobs i j e,
    settle_job-lost q o late now j (All-get_elem? JobOk q.jobs i j e each),
  )

  pub settle-Inv :
      (q : JobQueue R E) (i : ℕ) (o : Outcome R E) (late : Bool) (now : ℕ)
      → Inv q
      → Inv (settle q i o late now)
  unfolding settle
  settle-Inv q i o late now v =
      let n : ℕ = hires q (get_elem? q.jobs i) late in
      let sums = settle_lost_at q i o late now (get_elem? q.jobs i) v.each refl in
      let same =
        total-modify_same held (settle_job q o late now) q.jobs i (settle_job-held q o late now) in
      record {
        accounted = omega (arith, v.accounted, sums);
        bounded = hires-room q (get_elem? q.jobs i) late v.bounded;
        staffed = λ e. omega (arith, v.staffed e, same);
        at_most = omega (arith, v.at_most, same);
        queued =
            InOrder-modify_keeps (settle_job q o late now) q.jobs i 0 q.pending
              (settle_job-waiting q o late now) v.queued;
        each =
            All-modify JobOk (settle_job q o late now) q.jobs i
              (λ j. settle_job-JobOk q o late now j) v.each;
      }
