-- ===== src/Jobs/Changes.antt =====
-- A relation between a job and what becomes of it, over all the jobs of the queue: it holds of a
-- schedule if it holds of each change that a section makes to one job.
use sniff4hound.Prelude.{
  ℕ, zero, suc, ◌≡◌, refl, Bool, true, false, Option, none, some, List, [], ◌∷◌, ◌++◌, map, ltb,
  if◌then◌else◌, get_elem?, All,
}
use sniff4hound.Prelude.Text.{Text}
use sniff4hound.Jobs.Core.{
  Outcome, raised, Phase, Job, JobQueue, Errors, new_job, modify, submit, settle_job, settle,
  start_job, start_at, begin_with, take_pending, begin, in_phase, at_job, to_leaving,
  finish_handler, to_gone, leave, is_overdue, expire,
}
use sniff4hound.Jobs.Callers.{
  answer_job, claim_job, snap_job, store_job, finish_snap_job, finish_store_job, to_discarding,
  expire_read, drop_job, discard, stop, skip_job, drain_head, drain, quit, reap_job,
}
use sniff4hound.Jobs.Run.{
  Action, submits, begins, finishes, leaves, expires, answers, claims, snaps, finish_snaps, stores,
  finish_stores, expires_read, discards, stops, quits, drains, reaps, step, run,
}

-- The relation is kept by every change of a job.
pub record Stable {R E : Type 0} (Rel : Job R E → Job R E → Type 0) : Type 0 where
  pub same : (j : Job R E) → Rel j j
  pub chain : (j k l : Job R E) → Rel j k → Rel k l → Rel j l
  pub settling :
      (q : JobQueue R E) (o : Outcome R E) (late : Bool) (now : ℕ) (j : Job R E)
      → Rel j (settle_job q o late now j)
  pub starting : (now : ℕ) (j : Job R E) → Rel j (start_job now j)
  pub moving : (p : Phase) (j : Job R E) → Rel j (record j { phase = p })
  pub answering : (j : Job R E) → Rel j (answer_job j)
  pub claiming : (j : Job R E) → Rel j (claim_job j)
  pub snapping : (j : Job R E) → Rel j (snap_job j)
  pub storing : (written : Bool) (j : Job R E) → Rel j (store_job written j)
  pub finish_snapping : (j : Job R E) → Rel j (finish_snap_job j)
  pub finish_storing : (written : Bool) (j : Job R E) → Rel j (finish_store_job written j)
  pub discarding : (j : Job R E) → Rel j (to_discarding j)
  pub dropping : (j : Job R E) → Rel j (drop_job j)
  pub reaping : (cutoff : ℕ) (j : Job R E) → Rel j (reap_job cutoff j)

-- Each job is related to what it was; those that joined are related to how they were made.
abbrev pub Changed :
    {R E : Type 0} → (Rel : Job R E → Job R E → Type 0) → List (Job R E) → List (Job R E) → Type 0
Changed Rel [] [] = Unit
Changed Rel [] (k ∷ ks) =
    ((kind : Text) × (persist : Bool) × (now : ℕ) × Rel (new_job kind persist now) k)
    × Changed Rel [] ks
Changed Rel (j ∷ js) [] = ⊥
Changed Rel (j ∷ js) (k ∷ ks) = Rel j k × Changed Rel js ks

module _ {R E : Type 0} (Rel : Job R E → Job R E → Type 0) (s : Stable Rel) where
  Changed-refl : (js : List (Job R E)) → Changed Rel js js
  Changed-refl [] = tt
  Changed-refl (j ∷ js) = (s.same j, Changed-refl js)

  Changed-trans :
      (js ks ls : List (Job R E)) → Changed Rel js ks → Changed Rel ks ls → Changed Rel js ls
  Changed-trans [] [] ls c d = d
  Changed-trans [] (k ∷ ks) [] c d = absurd d
  Changed-trans [] (k ∷ ks) (l ∷ ls) c d =
      let (kind, persist, now, made) = c.0 in
      ((kind, persist, now, s.chain _ k l made d.0), Changed-trans [] ks ls c.1 d.1)
  Changed-trans (j ∷ js) [] ls c d = absurd c
  Changed-trans (j ∷ js) (k ∷ ks) [] c d = absurd d
  Changed-trans (j ∷ js) (k ∷ ks) (l ∷ ls) c d =
      (s.chain j k l c.0 d.0, Changed-trans js ks ls c.1 d.1)

  Changed-modify :
      (f : Job R E → Job R E) (js : List (Job R E)) (i : ℕ)
      → ((j : Job R E) → Rel j (f j))
      → Changed Rel js (modify js i f)
  Changed-modify f [] i h = tt
  Changed-modify f (j ∷ js) zero h = (h j, Changed-refl js)
  Changed-modify f (j ∷ js) (suc i) h = (s.same j, Changed-modify f js i h)

  Changed-modify_twice :
      (f g : Job R E → Job R E) (js : List (Job R E)) (i k : ℕ)
      → ((j : Job R E) → Rel j (f j))
      → ((j : Job R E) → Rel j (g j))
      → Changed Rel js (modify (modify js i f) k g)
  Changed-modify_twice f g js i k h h' =
      Changed-trans js (modify js i f) _ (Changed-modify f js i h) (Changed-modify g _ k h')

  Changed-map :
      (f : Job R E → Job R E) (js : List (Job R E))
      → ((j : Job R E) → Rel j (f j))
      → Changed Rel js (map f js)
  Changed-map f [] h = tt
  Changed-map f (j ∷ js) h = (h j, Changed-map f js h)

  Changed-snoc :
      (js : List (Job R E)) (kind : Text) (persist : Bool) (now : ℕ)
      → Changed Rel js (js ++ new_job kind persist now ∷ [])
  Changed-snoc [] kind persist now = ((kind, persist, now, s.same _), tt)
  Changed-snoc (j ∷ js) kind persist now = (s.same j, Changed-snoc js kind persist now)

  -- The queue's jobs, later.
  record Later (js : List (Job R E)) (q : JobQueue R E) : Type 0 where
    pub jobs : Changed Rel js q.jobs

  kept : (q : JobQueue R E) → Later q.jobs q
  kept q = record { jobs = Changed-refl q.jobs }

  at_job-Later :
      (q : JobQueue R E) (i : ℕ) (f : Job R E → JobQueue R E)
      → ((j : Job R E) → Later q.jobs (f j))
      → Later q.jobs (at_job q i f)
  at_job-Later q i f h = go (get_elem? q.jobs i)
    where
      go : (found : Option (Job R E)) → Later q.jobs (elim found [ none ↦ q | some j ↦ f j ])
      go none = kept q
      go (some j) = h j

  if-Later :
      (js : List (Job R E)) (b : Bool) (q r : JobQueue R E)
      → Later js q
      → Later js r
      → Later js (if b then q else r)
  if-Later js true q r c d = c
  if-Later js false q r c d = d

  settle-Later :
      (q : JobQueue R E) (i : ℕ) (o : Outcome R E) (late : Bool) (now : ℕ)
      → Later q.jobs (settle q i o late now)
  unfolding settle
  settle-Later q i o late now = record {
    jobs = Changed-modify (settle_job q o late now) q.jobs i (s.settling q o late now);
  }

  submit-Later :
      (q : JobQueue R E) (kind : Text) (persist : Bool) (now : ℕ)
      → Later q.jobs (submit q kind persist now)
  unfolding submit
  submit-Later q kind persist now =
      if-Later q.jobs q.stopping q _ (kept q)
        (record { jobs = Changed-snoc q.jobs kind persist now })

  start_at-Later :
      (js : List (Job R E)) (q : JobQueue R E) (i now : ℕ)
      → Later js q
      → Later js (start_at q i now)
  unfolding start_at
  start_at-Later js q i now c = record {
    jobs =
        Changed-trans js q.jobs _ c.jobs (Changed-modify (start_job now) q.jobs i (s.starting now));
  }

  take_pending-Later :
      (errors : Errors E) (q : JobQueue R E) (is : List ℕ) (now : ℕ)
      → Later q.jobs (take_pending errors q is now)
  unfolding begin_with
  take_pending-Later errors q [] now = kept q
  take_pending-Later errors q (i ∷ rest) now =
      let q' : JobQueue R E = record q { pending = rest } in
      start_at-Later q.jobs _ i now (
        if-Later q.jobs q.stopping _ _ (settle-Later q' i (raised errors.shut_down) false now)
          (kept q'))

  begin-Later : (errors : Errors E) (q : JobQueue R E) (now : ℕ) → Later q.jobs (begin errors q now)
  unfolding begin
  begin-Later errors q now =
      if-Later q.jobs (ltb 0 q.idle) _ q (take_pending-Later errors q q.pending now) (kept q)

  -- A settled job moves on.
  settle_then :
      (q : JobQueue R E) (i : ℕ) (o : Outcome R E) (late : Bool) (now : ℕ) (f : Job R E → Job R E)
      → ((j : Job R E) → Rel j (f j))
      → (let q' = settle q i o late now in Later q.jobs (record q' { jobs = modify q'.jobs i f }))
  settle_then q i o late now f h = record {
    jobs =
        Changed-trans q.jobs (settle q i o late now).jobs _ (settle-Later q i o late now).jobs
          (Changed-modify f _ i h);
  }

  finish_handler-Later :
      (q : JobQueue R E) (i : ℕ) (o : Outcome R E) (now : ℕ)
      → Later q.jobs (finish_handler q i o now)
  unfolding finish_handler
  finish_handler-Later q i o now = at_job-Later q i _ λ j.
      if-Later q.jobs (in_phase Phase.handling j) _ q
        (settle_then q i o false now to_leaving (s.moving Phase.leaving)) (kept q)

  leave-Later : (q : JobQueue R E) (i : ℕ) → Later q.jobs (leave q i)
  unfolding leave
  leave-Later q i = at_job-Later q i _ λ j.
      if-Later q.jobs (in_phase Phase.leaving j) _ q
        (record { jobs = Changed-modify to_gone q.jobs i (s.moving Phase.gone) }) (kept q)

  expire-Later :
      (errors : Errors E) (q : JobQueue R E) (i now : ℕ) → Later q.jobs (expire errors q i now)
  unfolding expire
  expire-Later errors q i now = at_job-Later q i _ λ j.
      if-Later q.jobs (is_overdue q now j) _ q
        (settle-Later q i (raised errors.job_timeout) true now) (kept q)

  expire_read-Later :
      (errors : Errors E) (q : JobQueue R E) (i now : ℕ) → Later q.jobs (expire_read errors q i now)
  unfolding expire_read
  expire_read-Later errors q i now = at_job-Later q i _ λ j.
      if-Later q.jobs _ _ q
        (settle_then q i (raised errors.read_timeout) true now to_discarding s.discarding) (kept q)

  discard-Later : (q : JobQueue R E) (i : ℕ) → Later q.jobs (discard q i)
  unfolding discard
  discard-Later q i = at_job-Later q i _ λ j.
      if-Later q.jobs _ _ q (record { jobs = Changed-modify drop_job q.jobs i s.dropping }) (kept q)

  drain_head-Later :
      (errors : Errors E) (q : JobQueue R E) (is : List ℕ) (now : ℕ)
      → Later q.jobs (drain_head errors q is now)
  drain_head-Later errors q [] now = kept q
  drain_head-Later errors q (i ∷ rest) now =
      settle_then (record q { pending = rest }) i (raised errors.shut_down) false now skip_job
        (s.moving Phase.gone)

  drain-Later : (errors : Errors E) (q : JobQueue R E) (now : ℕ) → Later q.jobs (drain errors q now)
  unfolding drain
  drain-Later errors q now =
      if-Later q.jobs q.stopping _ q (drain_head-Later errors q q.pending now) (kept q)

  step-Later :
      (errors : Errors E) (q : JobQueue R E) (a : Action R E) → Later q.jobs (step errors q a)
  unfolding step stop quit
  step-Later errors q (submits kind persist now) = submit-Later q kind persist now
  step-Later errors q (begins now) = begin-Later errors q now
  step-Later errors q (finishes i o now) = finish_handler-Later q i o now
  step-Later errors q (leaves i) = leave-Later q i
  step-Later errors q (expires i now) = expire-Later errors q i now
  step-Later errors q (answers i) = record { jobs = Changed-modify answer_job q.jobs i s.answering }
  step-Later errors q (claims i) = record { jobs = Changed-modify claim_job q.jobs i s.claiming }
  step-Later errors q (snaps i) = record { jobs = Changed-modify snap_job q.jobs i s.snapping }
  step-Later errors q (finish_snaps i) = record {
    jobs = Changed-modify finish_snap_job q.jobs i s.finish_snapping;
  }
  step-Later errors q (stores i w) = record {
    jobs = Changed-modify (store_job w) q.jobs i (s.storing w);
  }
  step-Later errors q (finish_stores i w) = record {
    jobs = Changed-modify (finish_store_job w) q.jobs i (s.finish_storing w);
  }
  step-Later errors q (expires_read i now) = expire_read-Later errors q i now
  step-Later errors q (discards i) = discard-Later q i
  step-Later errors q stops = record { jobs = Changed-refl q.jobs }
  step-Later errors q quits =
      if-Later q.jobs q.stopping _ q (record { jobs = Changed-refl q.jobs }) (kept q)
  step-Later errors q (drains now) = drain-Later errors q now
  step-Later errors q (reaps cutoff) = record {
    jobs = Changed-map (reap_job cutoff) q.jobs (s.reaping cutoff);
  }

  run-Later :
      (errors : Errors E) (q : JobQueue R E) (actions : List (Action R E))
      → Later q.jobs (run errors q actions)
  unfolding run
  run-Later errors q [] = kept q
  run-Later errors q (a ∷ as') = record {
    jobs =
        Changed-trans q.jobs (step errors q a).jobs _ (step-Later errors q a).jobs
          (run-Later errors (step errors q a) as').jobs;
  }

  pub run-Changed :
      (errors : Errors E) (q : JobQueue R E) (actions : List (Action R E))
      → Changed Rel q.jobs (run errors q actions).jobs
  run-Changed errors q actions = (run-Later errors q actions).jobs

  -- The job at an index, later.
  pub Changed-get_elem? :
      (js ks : List (Job R E)) (i : ℕ) (j : Job R E)
      → Changed Rel js ks
      → get_elem? js i ≡ some j
      → (k : Job R E) × (get_elem? ks i ≡ some k) × Rel j k
  Changed-get_elem? [] ks i j c e = cc
  Changed-get_elem? (x ∷ js) [] i j c e = absurd c
  Changed-get_elem? (x ∷ js) (k ∷ ks) zero j c e = let at : x ≡ j = cc in (k, refl, rw at at c.0)
  Changed-get_elem? (x ∷ js) (k ∷ ks) (suc i) j c e = Changed-get_elem? js ks i j c.1 e

  -- What every new job has and the relation carries along.
  pub Changed-All :
      (P : Job R E → Type 0) (ks : List (Job R E))
      → ((kind : Text) (persist : Bool) (now : ℕ) → P (new_job kind persist now))
      → ((j k : Job R E) → Rel j k → P j → P k)
      → Changed Rel [] ks
      → All P ks
  Changed-All P [] new carry c = tt
  Changed-All P (k ∷ ks) new carry c =
      let (kind, persist, now, made) = c.0 in
      (carry _ k made (new kind persist now), Changed-All P ks new carry c.1)
