-- ===== src/Jobs/Outcomes.antt =====
-- sniff4hound/jobs.py: an outcome is recorded once.
use sniff4hound.Prelude.{ℕ, ◌≡◌, refl, ◌∙◌, Bool, true, false, some, List, arith, get_elem?}
use sniff4hound.Jobs.Core.{Outcome, returned, raised, Job, JobQueue, Errors, snapshot, settle_job}
use sniff4hound.Jobs.Callers.{snap_job, store_job, finish_snap_job, finish_store_job, reap_job}
use sniff4hound.Jobs.Run.{Action, run}
use sniff4hound.Jobs.Changes.{Stable, Changed-get_elem?, run-Changed}

-- Nothing takes a recorded outcome back, nor a record back into the registry.
pub record Keeps {R E : Type 0} (j k : Job R E) : Type 0 where
  pub done : j.is_done ≡ true → k.is_done ≡ true
  pub outcome : j.is_done ≡ true → snapshot k ≡ snapshot j
  pub dropped : j.registered ≡ false → k.registered ≡ false
  pub claimed : j.persisted ≡ true → k.persisted ≡ true

module _ {R E : Type 0} where
  settled_job-Keeps :
      (q : JobQueue R E) (o : Outcome R E) (late : Bool) (now : ℕ) (j : Job R E)
      → Keeps j (settle_job q o late now j)
  unfolding settle_job
  settled_job-Keeps q (returned r) late now j = ground arith
  settled_job-Keeps q (raised e) late now j = ground arith

  Keeps-trans : (j k l : Job R E) → Keeps j k → Keeps k l → Keeps j l
  Keeps-trans j k l v w = record {
    done = λ d. w.done (v.done d);
    outcome = λ d. w.outcome (v.done d) ∙ v.outcome d;
    dropped = λ d. w.dropped (v.dropped d);
    claimed = λ d. w.claimed (v.claimed d);
  }

  pub Keeps-Stable : Stable (Keeps {R = R} {E = E})
  unfolding snapshot snap_job store_job finish_snap_job finish_store_job reap_job
  Keeps-Stable = record {
    same = λ j. record { done = λ d. d; outcome = λ d. refl; dropped = λ d. d; claimed = λ d. d };
    chain = Keeps-trans;
    settling = settled_job-Keeps;
    starting = λ now j. ground arith;
    moving = λ p j. ground arith;
    answering = λ j. ground arith;
    claiming = λ j. ground arith;
    snapping = λ j. ground arith;
    storing = λ written j. ground arith;
    finish_snapping = λ j. ground arith;
    finish_storing = λ written j. ground arith;
    discarding = λ j. ground arith;
    dropping = λ j. ground arith;
    reaping = λ cutoff j. ground arith;
  }

  -- A job that is settled keeps its status, result, error and finishing time in every later state of
  -- the queue, whatever its handler, the watchdog, the caller or the shutdown do afterwards; a job
  -- whose record was dropped is never registered again, and one that was claimed for polling stays so.
  pub run-Keeps :
      (errors : Errors E) (q : JobQueue R E) (actions : List (Action R E)) (i : ℕ) (j : Job R E)
      → get_elem? q.jobs i ≡ some j
      → (k : Job R E) × (get_elem? (run errors q actions).jobs i ≡ some k) × Keeps j k
  run-Keeps errors q actions i j e =
      Changed-get_elem? Keeps Keeps-Stable q.jobs _ i j
        (run-Changed Keeps Keeps-Stable errors q actions) e
