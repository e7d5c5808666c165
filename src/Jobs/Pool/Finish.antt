-- ===== src/Jobs/Pool/Finish.antt =====
-- sniff4hound/jobs.py: the sections in which a worker finishes a job and leaves keep the pool accounted for.
use sniff4hound.Prelude.{
  ℕ, ◌+◌, ◌≤◌, ◌≡◌, refl, ◌∙◌, Bool, true, false, Option, none, some, arith, get_elem?,
}
use sniff4hound.Prelude.Tests.{if_elim}
use sniff4hound.Jobs.Core.{
  Outcome, returned, raised, Phase, Job, JobQueue, modify, settle_job, settle, in_phase, at_job,
  to_leaving, finish_handler, to_gone, leave,
}
use sniff4hound.Jobs.Run.{on_job}
use sniff4hound.Jobs.Modify.{
  le-total, total-modify, get_elem?-modify, All-modify_at, get_elem?-waits_at, InOrder-modify_busy,
}
use sniff4hound.Jobs.Pool.{held, lost, JobOk, Inv}
use sniff4hound.Jobs.Pool.Settle.{settle-Inv, settle_job-phase}

module _ {R E : Type 0} where
  -- A change of one job that is not waiting, and does not hold or lose another worker.
  pub busy_job-Inv :
      (q : JobQueue R E) (i : ℕ) (j : Job R E) (f : Job R E → Job R E)
      → get_elem? q.jobs i ≡ some j
      → in_phase Phase.waiting j ≡ false
      → held (f j) ≡ held j
      → lost (f j) ≡ lost j
      → (JobOk j → JobOk (f j))
      → Inv q
      → Inv (on_job q i f)
  busy_job-Inv q i j f e busy same_held same_lost keeps v =
      let helds = total-modify held f q.jobs i j e in
      let losts = total-modify lost f q.jobs i j e in
      record {
        accounted = omega (arith, v.accounted);
        bounded = v.bounded;
        staffed = λ s. omega (arith, v.staffed s);
        at_most = omega (arith, v.at_most);
        queued =
            InOrder-modify_busy f q.jobs i 0 q.pending (get_elem?-waits_at q.jobs i j e ∙ busy)
              v.queued;
        each = All-modify_at JobOk f q.jobs i j e keeps v.each;
      }

  settle_job-done :
      (q : JobQueue R E) (o : Outcome R E) (late : Bool) (now : ℕ) (j : Job R E)
      → (settle_job q o late now j).is_done ≡ true
  unfolding settle_job
  settle_job-done q (returned r) late now j = ground arith
  settle_job-done q (raised e) late now j = ground arith

  to_leaving-JobOk : (j : Job R E) → j.is_done ≡ true → JobOk j → JobOk (to_leaving j)
  to_leaving-JobOk j d v = ground arith

  finish_at :
      (q : JobQueue R E) (i : ℕ) (o : Outcome R E) (now : ℕ) (j : Job R E)
      → get_elem? q.jobs i ≡ some j
      → in_phase Phase.handling j ≡ true
      → Inv q
      → let q' = settle q i o false now in Inv (on_job q' i to_leaving)
  finish_at q i o now j e h v =
      let j' : Job R E = settle_job q o false now j in
      let phase = settle_job-phase q o false now j in
      let found : get_elem? (modify q.jobs i (settle_job q o false now)) i ≡ some j' =
        get_elem?-modify (settle_job q o false now) q.jobs i j e in
      busy_job-Inv (settle q i o false now) i j' to_leaving (unfold settle in found) (ground arith)
        (ground arith) (ground arith) (to_leaving-JobOk j' (settle_job-done q o false now j))
        (settle-Inv q i o false now v)

  pub at_job-Inv_cases :
      (q : JobQueue R E) (i : ℕ) (f : Job R E → JobQueue R E)
      → Inv q
      → ((j : Job R E) → get_elem? q.jobs i ≡ some j → Inv (f j))
      → Inv (at_job q i f)
  at_job-Inv_cases q i f v each = go (get_elem? q.jobs i) refl
    where
      go :
          (found : Option (Job R E))
          → get_elem? q.jobs i ≡ found
          → Inv (elim found [ none ↦ q | some j ↦ f j ])
      go none e = v
      go (some j) e = each j e

  pub finish_handler-Inv :
      (q : JobQueue R E) (i : ℕ) (o : Outcome R E) (now : ℕ)
      → Inv q
      → Inv (finish_handler q i o now)
  unfolding finish_handler
  finish_handler-Inv q i o now v =
      at_job-Inv_cases q i _ v
        λ j e. if_elim Inv (in_phase Phase.handling j) (λ h. finish_at q i o now j e h v) (λ h. v)

  to_gone-JobOk : (j : Job R E) → JobOk j → in_phase Phase.leaving j ≡ true → JobOk (to_gone j)
  to_gone-JobOk j v h = ground arith

  -- The worker either joins the idle ones or takes its surplus with it.
  leave_with :
      (q : JobQueue R E) (i : ℕ) (j : Job R E) (idle surplus : ℕ)
      → get_elem? q.jobs i ≡ some j
      → in_phase Phase.leaving j ≡ true
      → lost j + surplus ≡ q.surplus
      → idle + lost j ≡ q.idle + 1
      → Inv q
      → Inv (record q { jobs = modify q.jobs i to_gone; idle = idle; surplus = surplus })
  leave_with q i j idle surplus e h s t v =
      let helds = total-modify held to_gone q.jobs i j e in
      let losts = total-modify lost to_gone q.jobs i j e in
      let held_one : held j ≡ 1 = ground arith in
      let busy : in_phase Phase.waiting j ≡ false = ground arith in
      record {
        accounted = omega (arith, v.accounted);
        bounded = omega (arith, v.bounded);
        staffed = λ r. omega (arith, v.staffed r);
        at_most = omega (arith, v.at_most);
        queued =
            InOrder-modify_busy to_gone q.jobs i 0 q.pending
              (get_elem?-waits_at q.jobs i j e ∙ busy) v.queued;
        each = All-modify_at JobOk to_gone q.jobs i j e (λ w. to_gone-JobOk j w h) v.each;
      }

  pub leave-Inv : (q : JobQueue R E) (i : ℕ) → Inv q → Inv (leave q i)
  unfolding leave
  leave-Inv q i v = at_job-Inv_cases q i _ v λ j e.
      if_elim Inv (in_phase Phase.leaving j)
        (λ h.
          let mine : lost j ≤ q.surplus = omega (arith, le-total lost q.jobs i j e, v.accounted) in
          leave_with q i j _ _ e h (ground arith) (ground arith) v)
        (λ h. v)
