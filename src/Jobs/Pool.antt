-- ===== src/Jobs/Pool.antt =====
-- The worker pool of the job queue: what is accounted for, whatever the threads do.
mod Settle
mod Quiet
mod Finish
mod Work
pub mod Steps
use sniff4hound.Prelude.{
  ℕ, zero, suc, ◌+◌, ◌-◌, ◌≤◌, ◌<◌, ◌≡◌, ◌≢◌, refl, sym, ap, ◌∙◌, Bool, true, false, not, ◌&&◌,
  ◌||◌, Option, none, some, List, [], ◌∷◌, ◌++◌, map, arith, ltb, leb, nat_beq, if◌then◌else◌,
  length, get_elem?, keep, All, inl, inr, Bool-cases, Option-cases, All-append,
}
use sniff4hound.Jobs.Core.{
  Status, Outcome, returned, raised, Phase, Snapshot, Caller, Finisher, Job, JobQueue, Errors,
  snapshot, new_job, modify, submit, settled_job, replaces, settle_job, hires, settle, start_job,
  begin_with, take_pending, begin, in_phase, at_job, to_leaving, finish_handler, to_gone, leave,
  is_overdue, expire,
}
use sniff4hound.Jobs.Callers.{
  answer_job, claim_job, snap_job, store_job, finish_snap_job, finish_store_job, to_discarding,
  expire_read, drop_job, discard, stop, skip_job, drain_head, drain, quit, reap_job,
}
use sniff4hound.Jobs.Run.{
  Action, submits, begins, finishes, leaves, expires, answers, claims, snaps, finish_snaps, stores,
  finish_stores, expires_read, discards, stops, quits, drains, reaps, init, on_job, step, run,
}
use sniff4hound.Jobs.Modify.{
  total, total-modify, total-modify_same, total-map_same, total-snoc, modify-none, get_elem?-modify,
  All-modify, All-modify_at, All-get_elem?, All-map, waits_at, InOrder, waits_at-get_elem?,
  get_elem?-waits_at, InOrder-modify_below, InOrder-modify_busy, InOrder-modify_keeps,
  InOrder-discard, InOrder-snoc, InOrder-map,
}

module _ {R E : Type 0} where
  -- Does the job hold a worker?
  abbrev pub is_held : Job R E → Bool
  is_held j = in_phase Phase.handling j || in_phase Phase.leaving j

  abbrev pub held : Job R E → ℕ
  held j = if is_held j then 1 else 0

  -- Is the worker that it holds one that was replaced?
  abbrev pub lost : Job R E → ℕ
  lost j = if is_held j && j.abandoned then 1 else 0

  pub record JobOk (j : Job R E) : Type 0 where
    pub abandoned_done : j.abandoned ≡ true → j.is_done ≡ true
    pub started_held : j.is_done ≡ false → 0 < j.started_mono → in_phase Phase.handling j ≡ true
    pub waiting_kept : in_phase Phase.waiting j ≡ true → j.abandoned ≡ false
    pub leaving_done : in_phase Phase.leaving j ≡ true → j.is_done ≡ true

-- The pool. Every surplus worker stands for a replaced one that is still inside a handler; there are
-- at most as many of them as configured workers; and until the queue is stopped the workers that
-- wait and those that hold a job are the configured ones and the surplus.
pub record Inv {R E : Type 0} (q : JobQueue R E) : Type 0 where
  pub accounted : total lost q.jobs ≡ q.surplus
  pub bounded : q.surplus ≤ q.worker_limit
  pub staffed : q.stopping ≡ false → q.idle + total held q.jobs ≡ q.worker_limit + q.surplus
  pub at_most : q.idle + total held q.jobs ≤ q.worker_limit + q.surplus
  pub queued : InOrder q.jobs 0 q.pending
  pub each : All JobOk q.jobs
