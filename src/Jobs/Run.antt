-- ===== src/Jobs/Run.antt =====
-- The threads of the job queue as a schedule of sections. A section that its thread is not at leaves
-- the state as it is.
use sniff4hound.Prelude.{ℕ, Bool, false, List, [], ◌∷◌, map, max}
use sniff4hound.Prelude.Text.{Text}
use sniff4hound.Jobs.Core.{
  Outcome, Job, JobQueue, Errors, modify, submit, begin, finish_handler, leave, expire,
}
use sniff4hound.Jobs.Callers.{
  answer_job, claim_job, snap_job, store_job, finish_snap_job, finish_store_job, expire_read,
  discard, stop, drain, quit, reap_job,
}

pub data Action (R E : Type 0) : Type 0 where
  submits : Text → Bool → ℕ → Action R E
  begins : ℕ → Action R E
  finishes : ℕ → Outcome R E → ℕ → Action R E
  leaves : ℕ → Action R E
  expires : ℕ → ℕ → Action R E
  answers claims snaps finish_snaps : ℕ → Action R E
  stores finish_stores : ℕ → Bool → Action R E
  expires_read : ℕ → ℕ → Action R E
  discards : ℕ → Action R E
  stops quits : Action R E
  drains reaps : ℕ → Action R E

module _ {R E : Type 0} where
  -- JobQueue(workers, timeout), with its workers started.
  unfoldable pub init : ℕ → ℕ → JobQueue R E
  init workers timeout = record {
    jobs = [];
    pending = [];
    idle = max 1 workers;
    surplus = 0;
    worker_limit = max 1 workers;
    timeout = timeout;
    stopping = false;
  }

  abbrev pub on_job : JobQueue R E → ℕ → (Job R E → Job R E) → JobQueue R E
  on_job q i f = record q { jobs = modify q.jobs i f }

  unfoldable pub step : Errors E → JobQueue R E → Action R E → JobQueue R E
  step errors q (submits kind persist now) = submit q kind persist now
  step errors q (begins now) = begin errors q now
  step errors q (finishes i o now) = finish_handler q i o now
  step errors q (leaves i) = leave q i
  step errors q (expires i now) = expire errors q i now
  step errors q (answers i) = on_job q i answer_job
  step errors q (claims i) = on_job q i claim_job
  step errors q (snaps i) = on_job q i snap_job
  step errors q (finish_snaps i) = on_job q i finish_snap_job
  step errors q (stores i written) = on_job q i (store_job written)
  step errors q (finish_stores i written) = on_job q i (finish_store_job written)
  step errors q (expires_read i now) = expire_read errors q i now
  step errors q (discards i) = discard q i
  step errors q stops = stop q
  step errors q quits = quit q
  step errors q (drains now) = drain errors q now
  step errors q (reaps cutoff) = record q { jobs = map (reap_job cutoff) q.jobs }

  unfoldable pub run : Errors E → JobQueue R E → List (Action R E) → JobQueue R E
  run errors q [] = q
  run errors q (a ∷ as') = run errors (step errors q a) as'
