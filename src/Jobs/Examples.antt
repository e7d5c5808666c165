-- ===== src/Jobs/Examples.antt =====
-- The job queue at concrete inputs: one worker, a handler that outlives its time, and its return.
use sniff4hound.Prelude.{ℕ, ◌≡◌, refl, true, false, none, some, List, [], ◌∷◌, get_elem?, All}
use sniff4hound.Jobs.Core.{
  Status, Outcome, returned, raised, Snapshot, Job, JobQueue, Errors, submit, begin, expire,
  finish_handler, leave, settle, settle_job, start_at, begin_with, new_job, snapshot, replaces,
  hires, is_overdue,
}
use sniff4hound.Jobs.Run.{Action, submits, begins, finishes, leaves, expires, init, step, run}
use sniff4hound.Jobs.Pool.{Inv}
use sniff4hound.Jobs.Pool.Steps.{run-Inv}
use sniff4hound.Jobs.Outcomes.{Keeps, run-Keeps}
use sniff4hound.Jobs.Rows.{RowOk}
use sniff4hound.Jobs.Rows.Kept.{run-RowOk}
use sniff4hound.Jobs.Race.{race}

abbrev errors : Errors ℕ
errors = record { read_timeout = 1; job_timeout = 2; shut_down = 3 }

-- The first job is late, is given up and its worker is replaced; the second one is answered.
abbrev late_job : List (Action ℕ ℕ)
late_job =
    submits [] true 5
    ∷ submits [] true 6
    ∷ begins 6
    ∷ expires 0 17
    ∷ begins 18
    ∷ finishes 1 (returned 42) 19
    ∷ []

abbrev nine : Outcome ℕ ℕ
nine = returned 9

abbrev late_return : List (Action ℕ ℕ)
late_return = finishes 0 (returned 7) 30 ∷ leaves 0 ∷ leaves 1 ∷ []

abbrev timed_out_job : Job ℕ ℕ
timed_out_job = record {
  kind = [];
  persist = true;
  status = Status.error;
  result = none;
  error = some 2;
  created_at = 5;
  finished_at = 17;
  is_done = true;
  persisted = false;
  started_mono = 6;
  abandoned = true;
  registered = true;
  phase = sniff4hound.Jobs.Core.Phase.handling;
  caller = sniff4hound.Jobs.Core.Caller.asking;
  finisher = sniff4hound.Jobs.Core.Finisher.silent;
  row = none;
}

first_late : get_elem? (run errors (init 1 10) late_job).jobs 0 ≡ some timed_out_job
unfolding run step init submit begin begin_with start_at finish_handler settle settle_job hires
    new_job replaces expire is_overdue
first_late = refl

run-Inv_example : Inv (run errors (init 1 10) late_job)
run-Inv_example = run-Inv errors 1 10 late_job

run-Keeps_example :
    (k : Job ℕ ℕ) × (get_elem? (run errors (run errors (init 1 10) late_job) late_return).jobs 0
      ≡ some k)
    × Keeps timed_out_job k
run-Keeps_example =
    run-Keeps errors (run errors (init 1 10) late_job) late_return 0 timed_out_job first_late

run-RowOk_example : All RowOk (run errors (init 1 10) (race [] nine 5)).jobs
run-RowOk_example = run-RowOk errors 1 10 (race [] nine 5)
