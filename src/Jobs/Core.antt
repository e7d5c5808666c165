-- ===== src/Jobs/Core.antt =====
-- sniff4hound/jobs.py: the state of the job queue and the sections of its workers and its watchdog.
-- A job's index is its identifier. Each thread's place in the program stands with the job that it
-- works for: `phase` for the worker that runs the handler, `caller` for the thread inside `submit`,
-- `finisher` for the thread whose `_settle` recorded the outcome. Workers that wait for work are
-- counted by `idle`. Times are ticks; 0 is a job that never started.
use sniff4hound.Prelude.{
  ℕ, zero, suc, ◌+◌, ◌-◌, Bool, true, false, not, ◌&&◌, ◌||◌, Option, none, some, List, [], ◌∷◌,
  ◌++◌, ltb, if◌then◌else◌, length, get_elem?,
}
use sniff4hound.Prelude.Text.{Text}

pub data Status : Type 0 where
  queued running done error : Status

-- What a handler ends with, or what `_settle` is called with.
pub data Outcome (R E : Type 0) : Type 0 where
  returned : R → Outcome R E
  raised : E → Outcome R E

pub data Phase : Type 0 where
  waiting handling leaving gone : Phase

-- Job.snapshot()
pub record Snapshot (R E : Type 0) : Type 0 where
  pub status : Status
  pub result : Option R
  pub error : Option E
  pub created_at : ℕ
  pub finished_at : ℕ

pub data Caller (R E : Type 0) : Type 0 where
  asking claimed deferred inlined discarding timed_out : Caller R E
  snapped : Snapshot R E → Caller R E

pub data Finisher (R E : Type 0) : Type 0 where
  silent owes wrote : Finisher R E
  holds : Snapshot R E → Finisher R E

pub record Job (R E : Type 0) : Type 0 where
  pub kind : Text
  pub persist : Bool
  pub status : Status
  pub result : Option R
  pub error : Option E
  pub created_at : ℕ
  pub finished_at : ℕ
  pub is_done : Bool
  pub persisted : Bool
  pub started_mono : ℕ
  pub abandoned : Bool
  pub registered : Bool
  pub phase : Phase
  pub caller : Caller R E
  pub finisher : Finisher R E
  pub row : Option (Snapshot R E)

pub record JobQueue (R E : Type 0) : Type 0 where
  pub jobs : List (Job R E)
  pub pending : List ℕ
  pub idle : ℕ
  pub surplus : ℕ
  pub worker_limit : ℕ
  pub timeout : ℕ
  pub stopping : Bool

-- What the source raises itself: the two time limits and the shutdown.
pub record Errors (E : Type 0) : Type 0 where
  pub read_timeout : E
  pub job_timeout : E
  pub shut_down : E

module _ {R E : Type 0} where
  unfoldable pub snapshot : Job R E → Snapshot R E
  snapshot j = record {
    status = j.status;
    result = j.result;
    error = j.error;
    created_at = j.created_at;
    finished_at = j.finished_at;
  }

  -- Job(job_id, kind), in the registry.
  unfoldable pub new_job : Text → Bool → ℕ → Job R E
  new_job kind persist now = record {
    kind = kind;
    persist = persist;
    status = Status.queued;
    result = none;
    error = none;
    created_at = now;
    finished_at = 0;
    is_done = false;
    persisted = false;
    started_mono = 0;
    abandoned = false;
    registered = true;
    phase = Phase.waiting;
    caller = Caller.asking;
    finisher = Finisher.silent;
    row = none;
  }

  -- One job changes, the others stay.
  abbrev pub modify : List (Job R E) → ℕ → (Job R E → Job R E) → List (Job R E)
  modify [] i f = []
  modify (j ∷ js) zero f = f j ∷ js
  modify (j ∷ js) (suc i) f = j ∷ modify js i f

  -- submit: the section under the queue's lock. A stopped queue raises instead.
  unfoldable pub submit : JobQueue R E → Text → Bool → ℕ → JobQueue R E
  unfolding new_job
  submit q kind persist now = if q.stopping then q else record q {
    jobs = q.jobs ++ new_job kind persist now ∷ [];
    pending = q.pending ++ length q.jobs ∷ [];
  }

  abbrev pub settled_job : Job R E → Outcome R E → ℕ → Job R E
  settled_job j (returned r) now = record j {
    status = Status.done;
    result = some r;
    finished_at = now;
    is_done = true;
    finisher = if j.persisted then Finisher.owes else Finisher.silent;
  }
  settled_job j (raised e) now = record j {
    status = Status.error;
    error = some e;
    finished_at = now;
    is_done = true;
    finisher = if j.persisted then Finisher.owes else Finisher.silent;
  }

  -- `_settle`: does the job's worker get a replacement?
  unfoldable pub replaces : JobQueue R E → Job R E → Bool → Bool
  replaces q j late = late && ltb 0 j.started_mono && not q.stopping && ltb q.surplus q.worker_limit

  -- `_settle` of one job, which records an outcome once.
  unfoldable pub settle_job : JobQueue R E → Outcome R E → Bool → ℕ → Job R E → Job R E
  unfolding replaces
  settle_job q o late now j =
      if j.is_done
      then j
      else settled_job (record j { abandoned = replaces q j late || j.abandoned }) o now

  -- The worker that `_settle` starts.
  unfoldable pub hires : JobQueue R E → Option (Job R E) → Bool → ℕ
  unfolding replaces
  hires q none late = 0
  hires q (some j) late = if j.is_done then 0 else (if replaces q j late then 1 else 0)

  unfoldable pub settle : JobQueue R E → ℕ → Outcome R E → Bool → ℕ → JobQueue R E
  unfolding settle_job hires
  settle q i o late now =
      let new = hires q (get_elem? q.jobs i) late in
      record q {
        jobs = modify q.jobs i (settle_job q o late now);
        idle = q.idle + new;
        surplus = q.surplus + new;
      }

  -- A worker that has a job in hand: a job that is settled already is let go of.
  abbrev pub start_job : ℕ → Job R E → Job R E
  start_job now j =
      if j.is_done
      then record j { phase = Phase.gone }
      else record j { status = Status.running; started_mono = now; phase = Phase.handling }

  -- The worker stays idle if the job was settled before.
  unfoldable pub start_at : JobQueue R E → ℕ → ℕ → JobQueue R E
  start_at q i now =
      let busy : ℕ = elim (get_elem? q.jobs i) [ none ↦ 0 | some j ↦ if j.is_done then 0 else 1 ] in
      record q { jobs = modify q.jobs i (start_job now); idle = q.idle - busy }

  -- `_work_loop`: take the head of the queue, up to the call of the handler.
  unfoldable pub begin_with : Errors E → JobQueue R E → ℕ → ℕ → JobQueue R E
  unfolding settle start_at
  begin_with errors q i now =
      start_at (if q.stopping then settle q i (raised errors.shut_down) false now else q) i now

  abbrev pub take_pending : Errors E → JobQueue R E → List ℕ → ℕ → JobQueue R E
  take_pending errors q [] now = q
  take_pending errors q (i ∷ rest) now = begin_with errors (record q { pending = rest }) i now

  unfoldable pub begin : Errors E → JobQueue R E → ℕ → JobQueue R E
  unfolding begin_with
  begin errors q now = if ltb 0 q.idle then take_pending errors q q.pending now else q

  abbrev pub in_phase : Phase → Job R E → Bool
  in_phase Phase.waiting j = elim j.phase [ Phase.waiting ↦ true | _ ↦ false ]
  in_phase Phase.handling j = elim j.phase [ Phase.handling ↦ true | _ ↦ false ]
  in_phase Phase.leaving j = elim j.phase [ Phase.leaving ↦ true | _ ↦ false ]
  in_phase Phase.gone j = elim j.phase [ Phase.gone ↦ true | _ ↦ false ]

  -- What a section does to the queue if the job is there.
  abbrev pub at_job : JobQueue R E → ℕ → (Job R E → JobQueue R E) → JobQueue R E
  at_job q i f = elim (get_elem? q.jobs i) [ none ↦ q | some j ↦ f j ]

  abbrev pub to_leaving : Job R E → Job R E
  to_leaving j = record j { phase = Phase.leaving }

  -- The handler returns or raises: the worker settles its job, which a watchdog may have done.
  unfoldable pub finish_handler : JobQueue R E → ℕ → Outcome R E → ℕ → JobQueue R E
  unfolding settle
  finish_handler q i o now = at_job q i λ j.
      if in_phase Phase.handling j
      then (let q' = settle q i o false now in record q' { jobs = modify q'.jobs i to_leaving })
      else q

  abbrev pub to_gone : Job R E → Job R E
  to_gone j = record j { phase = Phase.gone }

  -- The worker's last section for a job: an abandoned one retires, any other waits for work again.
  unfoldable pub leave : JobQueue R E → ℕ → JobQueue R E
  leave q i = at_job q i λ j.
      if in_phase Phase.leaving j
      then record q {
        jobs = modify q.jobs i to_gone;
        idle = if j.abandoned then q.idle else q.idle + 1;
        surplus = if j.abandoned then q.surplus - 1 else q.surplus;
      }
      else q

  abbrev pub is_running : Job R E → Bool
  is_running j = elim j.status [ Status.running ↦ true | _ ↦ false ]

  -- `_abandon_overdue`: which jobs are late. A job is in `_running` until its worker has left it.
  unfoldable pub is_overdue : JobQueue R E → ℕ → Job R E → Bool
  is_overdue q now j =
      (in_phase Phase.handling j || in_phase Phase.leaving j)
      && is_running j
      && not j.is_done
      && ltb 0 j.started_mono
      && ltb (j.started_mono + q.timeout) now

  -- The watchdog settles one job that it found late.
  unfoldable pub expire : Errors E → JobQueue R E → ℕ → ℕ → JobQueue R E
  unfolding settle is_overdue
  expire errors q i now =
      at_job q i
        λ j. if is_overdue q now j then settle q i (raised errors.job_timeout) true now else q
