-- ===== src/Jobs/Pool/Steps.antt =====
-- Every schedule of the threads keeps the worker pool accounted for.
use sniff4hound.Prelude.{ℕ, ◌≡◌, refl, ◌∙◌, Bool, true, not, ◌&&◌, List, [], ◌∷◌, arith, All-append}
use sniff4hound.Prelude.Tests.{if_elim}
use sniff4hound.Jobs.Core.{
  raised, Job, JobQueue, Errors, new_job, submit, settle, is_overdue, expire,
}
use sniff4hound.Jobs.Callers.{
  answer_job, claim_job, snap_job, store_job, finish_snap_job, finish_store_job, to_discarding,
  expire_read, drop_job, is_asking, is_discarding, discard, stop, quit, reap_job,
}
use sniff4hound.Jobs.Run.{
  Action, submits, begins, finishes, leaves, expires, answers, claims, snaps, finish_snaps, stores,
  finish_stores, expires_read, discards, stops, quits, drains, reaps, init, step, run,
}
use sniff4hound.Jobs.Modify.{
  total-modify_same, total-snoc, All-modify, InOrder-discard, InOrder-snoc,
}
use sniff4hound.Prelude.Text.{Text}
use sniff4hound.Jobs.Pool.{held, lost, JobOk, Inv}
use sniff4hound.Jobs.Pool.Settle.{settle-Inv}
use sniff4hound.Jobs.Pool.Finish.{at_job-Inv_cases, finish_handler-Inv, leave-Inv}
use sniff4hound.Jobs.Pool.Work.{begin-Inv, drain-Inv}
use sniff4hound.Jobs.Pool.Quiet.{
  on_job-Inv, map-Inv, answer_job-Quiet, claim_job-Quiet, snap_job-Quiet, store_job-Quiet,
  finish_snap_job-Quiet, finish_store_job-Quiet, reap_job-Quiet, to_discarding-Quiet,
}

module _ {R E : Type 0} where
  new_job-JobOk :
      (kind : Text) (persist : Bool) (now : ℕ) → JobOk (new_job {R = R} {E = E} kind persist now)
  unfolding new_job
  new_job-JobOk kind persist now = ground arith

  submit-Inv :
      (q : JobQueue R E) (kind : Text) (persist : Bool) (now : ℕ)
      → Inv q
      → Inv (submit q kind persist now)
  unfolding submit
  submit-Inv q kind persist now v =
      if_elim Inv q.stopping (λ h. v)
        λ h.
          let j : Job R E = new_job kind persist now in
          let helds = total-snoc held q.jobs j in
          let losts = total-snoc lost q.jobs j in
          let free : held j ≡ 0 = refl in
          let whole : lost j ≡ 0 = refl in
          record {
            accounted = omega (arith, v.accounted);
            bounded = v.bounded;
            staffed = λ s. omega (arith, v.staffed s);
            at_most = omega (arith, v.at_most);
            queued = InOrder-snoc q.jobs j 0 q.pending refl (omega arith) v.queued;
            each = All-append JobOk q.jobs (j ∷ []) v.each (new_job-JobOk kind persist now, tt);
          }

  expire-Inv :
      (errors : Errors E) (q : JobQueue R E) (i now : ℕ) → Inv q → Inv (expire errors q i now)
  unfolding expire
  expire-Inv errors q i now v = at_job-Inv_cases q i _ v λ j e.
      if_elim Inv (is_overdue q now j) (λ h. settle-Inv q i (raised errors.job_timeout) true now v)
        (λ h. v)

  expire_read-Inv :
      (errors : Errors E) (q : JobQueue R E) (i now : ℕ) → Inv q → Inv (expire_read errors q i now)
  unfolding expire_read
  expire_read-Inv errors q i now v = at_job-Inv_cases q i _ v λ j e.
      if_elim Inv (is_asking j && not j.persist)
        (λ h.
          on_job-Inv (settle q i (raised errors.read_timeout) true now) i to_discarding
            to_discarding-Quiet (settle-Inv q i (raised errors.read_timeout) true now v))
        (λ h. v)

  drop_job-held : (j : Job R E) → held (drop_job j) ≡ held j
  drop_job-held j = ground arith

  drop_job-lost : (j : Job R E) → lost (drop_job j) ≡ lost j
  drop_job-lost j = ground arith

  drop_job-JobOk : (j : Job R E) → JobOk j → JobOk (drop_job j)
  drop_job-JobOk j v = ground arith

  discard-Inv : (q : JobQueue R E) (i : ℕ) → Inv q → Inv (discard q i)
  unfolding discard
  discard-Inv q i v = at_job-Inv_cases q i _ v λ j e.
      if_elim Inv (is_discarding j)
        (λ h.
          let helds = total-modify_same held drop_job q.jobs i drop_job-held in
          let losts = total-modify_same lost drop_job q.jobs i drop_job-lost in
          record {
            accounted = losts ∙ v.accounted;
            bounded = v.bounded;
            staffed = λ s. omega (arith, v.staffed s, helds);
            at_most = omega (arith, v.at_most, helds);
            queued = InOrder-discard drop_job q.jobs i 0 q.pending v.queued;
            each = All-modify JobOk drop_job q.jobs i drop_job-JobOk v.each;
          })
        (λ h. v)

  stop-Inv : (q : JobQueue R E) → Inv q → Inv (stop q)
  unfolding stop
  stop-Inv q v = record {
    accounted = v.accounted;
    bounded = v.bounded;
    staffed = λ s. cc;
    at_most = v.at_most;
    queued = v.queued;
    each = v.each;
  }

  quit-Inv : (q : JobQueue R E) → Inv q → Inv (quit q)
  unfolding quit
  quit-Inv q v =
      if_elim Inv q.stopping
        (λ h. record {
          accounted = v.accounted;
          bounded = v.bounded;
          staffed = λ s. cc;
          at_most = omega (arith, v.at_most);
          queued = v.queued;
          each = v.each;
        })
        (λ h. v)

  step-Inv : (errors : Errors E) (q : JobQueue R E) (a : Action R E) → Inv q → Inv (step errors q a)
  unfolding step
  step-Inv errors q (submits kind persist now) v = submit-Inv q kind persist now v
  step-Inv errors q (begins now) v = begin-Inv errors q now v
  step-Inv errors q (finishes i o now) v = finish_handler-Inv q i o now v
  step-Inv errors q (leaves i) v = leave-Inv q i v
  step-Inv errors q (expires i now) v = expire-Inv errors q i now v
  step-Inv errors q (answers i) v = on_job-Inv q i answer_job answer_job-Quiet v
  step-Inv errors q (claims i) v = on_job-Inv q i claim_job claim_job-Quiet v
  step-Inv errors q (snaps i) v = on_job-Inv q i snap_job snap_job-Quiet v
  step-Inv errors q (finish_snaps i) v = on_job-Inv q i finish_snap_job finish_snap_job-Quiet v
  step-Inv errors q (stores i w) v = on_job-Inv q i (store_job w) (store_job-Quiet w) v
  step-Inv errors q (finish_stores i w) v =
      on_job-Inv q i (finish_store_job w) (finish_store_job-Quiet w) v
  step-Inv errors q (expires_read i now) v = expire_read-Inv errors q i now v
  step-Inv errors q (discards i) v = discard-Inv q i v
  step-Inv errors q stops v = stop-Inv q v
  step-Inv errors q quits v = quit-Inv q v
  step-Inv errors q (drains now) v = drain-Inv errors q now v
  step-Inv errors q (reaps cutoff) v = map-Inv q (reap_job cutoff) (reap_job-Quiet cutoff) v

  -- A new queue's pool is accounted for: every configured worker waits for work.
  pub init-Inv : (workers timeout : ℕ) → Inv (init {R = R} {E = E} workers timeout)
  unfolding init
  init-Inv workers timeout = omega arith

  run-from-Inv :
      (errors : Errors E) (q : JobQueue R E) (actions : List (Action R E))
      → Inv q
      → Inv (run errors q actions)
  unfolding run
  run-from-Inv errors q [] v = v
  run-from-Inv errors q (a ∷ as') v =
      run-from-Inv errors (step errors q a) as' (step-Inv errors q a v)

  -- After any schedule of the threads from a new queue, the pool is accounted for: the surplus is
  -- exactly the number of abandoned jobs whose worker is still inside the handler or about to leave
  -- it, it never exceeds the configured workers, and until the queue is stopped the idle workers and
  -- those that hold a job are together the configured workers and the surplus (afterwards no more
  -- than these). The waiting jobs stand in the queue in the order of their submission.
  pub run-Inv :
      (errors : Errors E) (workers timeout : ℕ) (actions : List (Action R E))
      → Inv (run errors (init workers timeout) actions)
  run-Inv errors workers timeout actions =
      run-from-Inv errors (init workers timeout) actions (init-Inv workers timeout)
