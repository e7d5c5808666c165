-- ===== src/Jobs/Callers.antt =====
-- sniff4hound/jobs.py: the sections of the thread inside `submit`, of the thread that writes a
-- settled job, of `reap` and of `shutdown`. `store.upsert_job` replaces the job's row.
use sniff4hound.Prelude.{
  ℕ, ◌-◌, Bool, true, false, not, ◌&&◌, Option, none, some, List, [], ◌∷◌, ltb, nat_beq,
  if◌then◌else◌, get_elem?, keep,
}
use sniff4hound.Jobs.Core.{
  raised, Phase, Snapshot, Caller, Finisher, Job, JobQueue, Errors, snapshot, modify, settle,
  at_job,
}

module _ {R E : Type 0} where
  -- The waiting request finds the job done, in time or while it claims it: it takes the outcome and
  -- drops the record.
  abbrev pub answer_job : Job R E → Job R E
  answer_job j = elim j.caller [
    | Caller.asking ↦
        if j.is_done then record j { caller = Caller.inlined; registered = false } else j
    | _ ↦ j
  ]

  -- The inline window is over: claim the job for polling, under the job's lock.
  abbrev pub claim_job : Job R E → Job R E
  claim_job j = elim j.caller [
    | Caller.asking ↦
        if not j.persist
        then j
        else (if j.is_done
            then record j { caller = Caller.inlined; registered = false }
            else record j { persisted = true; caller = Caller.claimed })
    | _ ↦ j
  ]

  -- `_persist` by the claiming thread: first the snapshot, then the write.
  unfoldable pub snap_job : Job R E → Job R E
  unfolding snapshot
  snap_job j = elim j.caller [
    | Caller.claimed ↦ record j { caller = Caller.snapped (snapshot j) }
    | _ ↦ j
  ]

  -- A write that fails is swallowed: the copy in memory still answers.
  unfoldable pub store_job : Bool → Job R E → Job R E
  store_job written j = elim j.caller [
    | Caller.snapped s ↦ record j {
      caller = Caller.deferred;
      row = if written then some s else j.row;
    }
    | _ ↦ j
  ]

  -- `_finish` by the thread that settled the job: the same two steps.
  unfoldable pub finish_snap_job : Job R E → Job R E
  unfolding snapshot
  finish_snap_job j = elim j.finisher [
    | Finisher.owes ↦ record j { finisher = Finisher.holds (snapshot j) }
    | _ ↦ j
  ]

  unfoldable pub finish_store_job : Bool → Job R E → Job R E
  finish_store_job written j = elim j.finisher [
    | Finisher.holds s ↦ record j {
      finisher = Finisher.wrote;
      row = if written then some s else j.row;
    }
    | _ ↦ j
  ]

  abbrev pub is_asking : Job R E → Bool
  is_asking j = elim j.caller [ Caller.asking ↦ true | _ ↦ false ]

  abbrev pub is_discarding : Job R E → Bool
  is_discarding j = elim j.caller [ Caller.discarding ↦ true | _ ↦ false ]

  abbrev pub to_discarding : Job R E → Job R E
  to_discarding j = record j { caller = Caller.discarding }

  -- A read whose wait ran into the time limit: it settles the job before it drops the record. The
  -- job may have been settled between the end of the wait and this section.
  unfoldable pub expire_read : Errors E → JobQueue R E → ℕ → ℕ → JobQueue R E
  unfolding settle
  expire_read errors q i now = at_job q i λ j.
      if is_asking j && not j.persist
      then (let q' = settle q i (raised errors.read_timeout) true now in
          record q' { jobs = modify q'.jobs i to_discarding })
      else q

  abbrev pub drop_job : Job R E → Job R E
  drop_job j = record j {
    phase = elim j.phase [ Phase.waiting ↦ Phase.gone | other ↦ other ];
    caller = Caller.timed_out;
    registered = false;
  }

  -- `_PendingJobs.discard`, and the end of the expired read.
  unfoldable pub discard : JobQueue R E → ℕ → JobQueue R E
  discard q i = at_job q i λ j.
      if is_discarding j
      then record q {
        jobs = modify q.jobs i drop_job;
        pending = keep (λ k. not (nat_beq k i)) q.pending;
      }
      else q

  -- `shutdown`: no more work is accepted,
  unfoldable pub stop : JobQueue R E → JobQueue R E
  stop q = record q { stopping = true }

  abbrev pub skip_job : Job R E → Job R E
  skip_job j = record j { phase = Phase.gone }

  abbrev pub drain_head : Errors E → JobQueue R E → List ℕ → ℕ → JobQueue R E
  drain_head errors q [] now = q
  drain_head errors q (i ∷ rest) now =
      let q' = settle (record q { pending = rest }) i (raised errors.shut_down) false now in
      record q' { jobs = modify q'.jobs i skip_job }

  -- what is queued fails,
  unfoldable pub drain : Errors E → JobQueue R E → ℕ → JobQueue R E
  unfolding settle
  drain errors q now = if q.stopping then drain_head errors q q.pending now else q

  -- and a worker that waits for work ends.
  unfoldable pub quit : JobQueue R E → JobQueue R E
  quit q = if q.stopping then record q { idle = q.idle - 1 } else q

  -- `reap` at a cutoff: rows and settled records of jobs made before it go.
  unfoldable pub reap_job : ℕ → Job R E → Job R E
  reap_job cutoff j =
      if ltb j.created_at cutoff
      then record j { row = none; registered = if j.is_done then false else j.registered }
      else j

  -- `get`: the record in memory, else the row.
  unfoldable pub get : JobQueue R E → ℕ → Option (Snapshot R E)
  unfolding snapshot
  get q i = elim (get_elem? q.jobs i) [
    | none ↦ none
    | some j ↦ if j.registered then some (snapshot j) else j.row
  ]
