-- ===== src/Jobs/Race.antt =====
-- sniff4hound/jobs.py: `_persist` runs after the job's lock is released, and the last write wins.
use sniff4hound.Prelude.{ℕ, ◌≡◌, refl, true, some, List, [], ◌∷◌, get_elem?}
use sniff4hound.Prelude.Text.{Text}
use sniff4hound.Jobs.Core.{
  Status, Finisher, Outcome, returned, raised, Snapshot, Job, Errors, submit, begin, finish_handler,
  settle, settle_job, start_at, begin_with, new_job, snapshot, replaces, hires,
}
use sniff4hound.Jobs.Callers.{snap_job, store_job, finish_snap_job, finish_store_job}
use sniff4hound.Jobs.Run.{
  Action, submits, begins, finishes, claims, snaps, finish_snaps, stores, finish_stores, init, step,
  run,
}

module _ {R E : Type 0} where
  -- The caller claims the job and takes its snapshot, the worker settles the job and writes the
  -- final row, and then the caller writes.
  abbrev pub race : Text → Outcome R E → ℕ → List (Action R E)
  race kind o now =
      submits kind true now
      ∷ begins now
      ∷ claims 0
      ∷ snaps 0
      ∷ finishes 0 o now
      ∷ finish_snaps 0
      ∷ finish_stores 0 true
      ∷ stores 0 true
      ∷ []

  -- The row of a settled job still says that it runs, although its finisher has written it.
  pub data StaleRow (j : Job R E) : Type 0 where
    stale :
        (s : Snapshot R E)
        → j.is_done ≡ true
        → j.finisher ≡ Finisher.wrote
        → j.row ≡ some s
        → s.status ≡ Status.running
        → StaleRow j

  -- Whatever the handler ends with, there is a schedule from a new queue with one worker
  -- after which the job is settled, its finisher has written its row without a failure, and the row,
  -- which the caller has written after that, says that the job is running.
  pub race-StaleRow :
      (errors : Errors E) (timeout : ℕ) (kind : Text) (o : Outcome R E) (now : ℕ)
      → (j : Job R E) × (get_elem? (run errors (init 1 timeout) (race kind o now)).jobs 0 ≡ some j)
        × StaleRow j
  unfolding run step init submit begin begin_with start_at finish_handler settle settle_job hires
      new_job snap_job store_job finish_snap_job finish_store_job snapshot replaces
  race-StaleRow errors timeout kind (returned r) now = (_, refl, stale _ refl refl refl refl)
  race-StaleRow errors timeout kind (raised e) now = (_, refl, stale _ refl refl refl refl)
