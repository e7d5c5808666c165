-- ===== src/Jobs/Pool/Quiet.antt =====
-- Changes of a job that the worker pool does not see: those of the callers and the writers.
use sniff4hound.Prelude.{ℕ, ◌≡◌, ◌∙◌, Bool, map, arith}
use sniff4hound.Jobs.Core.{Phase, Job, JobQueue, in_phase}
use sniff4hound.Jobs.Callers.{
  answer_job, claim_job, snap_job, store_job, finish_snap_job, finish_store_job, to_discarding,
  reap_job,
}
use sniff4hound.Jobs.Run.{on_job}
use sniff4hound.Jobs.Modify.{
  total-modify_same, total-map_same, All-modify, All-map, InOrder-modify_keeps, InOrder-map,
}
use sniff4hound.Jobs.Pool.{held, lost, JobOk, Inv}

module _ {R E : Type 0} where
  -- A change of one job that the pool does not see.
  pub record Quiet (f : Job R E → Job R E) : Type 0 where
    pub same_held : (j : Job R E) → held (f j) ≡ held j
    pub same_lost : (j : Job R E) → lost (f j) ≡ lost j
    pub same_waiting : (j : Job R E) → in_phase Phase.waiting (f j) ≡ in_phase Phase.waiting j
    pub keeps : (j : Job R E) → JobOk j → JobOk (f j)

  pub on_job-Inv :
      (q : JobQueue R E) (i : ℕ) (f : Job R E → Job R E) → Quiet f → Inv q → Inv (on_job q i f)
  on_job-Inv q i f s v =
      let helds = total-modify_same held f q.jobs i s.same_held in
      let losts = total-modify_same lost f q.jobs i s.same_lost in
      record {
        accounted = losts ∙ v.accounted;
        bounded = v.bounded;
        staffed = λ e. omega (arith, v.staffed e, helds);
        at_most = omega (arith, v.at_most, helds);
        queued = InOrder-modify_keeps f q.jobs i 0 q.pending s.same_waiting v.queued;
        each = All-modify JobOk f q.jobs i s.keeps v.each;
      }

  pub map-Inv :
      (q : JobQueue R E) (f : Job R E → Job R E)
      → Quiet f
      → Inv q
      → Inv (record q { jobs = map f q.jobs })
  map-Inv q f s v =
      let helds = total-map_same held f q.jobs s.same_held in
      let losts = total-map_same lost f q.jobs s.same_lost in
      record {
        accounted = losts ∙ v.accounted;
        bounded = v.bounded;
        staffed = λ e. omega (arith, v.staffed e, helds);
        at_most = omega (arith, v.at_most, helds);
        queued = InOrder-map f q.jobs 0 q.pending s.same_waiting v.queued;
        each = All-map JobOk f q.jobs s.keeps v.each;
      }

  -- What the pool sees of a job stays.
  record SameWork (j k : Job R E) : Type 0 where
    same_phase : k.phase ≡ j.phase
    same_abandoned : k.abandoned ≡ j.abandoned
    same_done : k.is_done ≡ j.is_done
    same_started : k.started_mono ≡ j.started_mono

  SameWork-JobOk : (j k : Job R E) → SameWork j k → JobOk j → JobOk k
  SameWork-JobOk j k s v = ground arith

  Quiet-of : (f : Job R E → Job R E) → ((j : Job R E) → SameWork j (f j)) → Quiet f
  Quiet-of f s = record {
    same_held = λ j. let w = s j in ground arith;
    same_lost = λ j. let w = s j in ground arith;
    same_waiting = λ j. let w = s j in ground arith;
    keeps = λ j. SameWork-JobOk j (f j) (s j);
  }

  pub answer_job-Quiet : Quiet answer_job
  answer_job-Quiet = Quiet-of answer_job (λ j. ground arith)

  pub claim_job-Quiet : Quiet claim_job
  claim_job-Quiet = Quiet-of claim_job (λ j. ground arith)

  pub snap_job-Quiet : Quiet snap_job
  unfolding snap_job
  snap_job-Quiet = Quiet-of snap_job (λ j. ground arith)

  pub store_job-Quiet : (written : Bool) → Quiet (store_job written)
  unfolding store_job
  store_job-Quiet written = Quiet-of (store_job written) (λ j. ground arith)

  pub finish_snap_job-Quiet : Quiet finish_snap_job
  unfolding finish_snap_job
  finish_snap_job-Quiet = Quiet-of finish_snap_job (λ j. ground arith)

  pub finish_store_job-Quiet : (written : Bool) → Quiet (finish_store_job written)
  unfolding finish_store_job
  finish_store_job-Quiet written = Quiet-of (finish_store_job written) (λ j. ground arith)

  pub reap_job-Quiet : (cutoff : ℕ) → Quiet (reap_job cutoff)
  unfolding reap_job
  reap_job-Quiet cutoff = Quiet-of (reap_job cutoff) (λ j. ground arith)

  pub to_discarding-Quiet : Quiet to_discarding
  to_discarding-Quiet = Quiet-of to_discarding (λ j. ground arith)
