-- ===== src/Jobs/Pool/Work.antt =====
-- The sections of the workers keep the pool accounted for.
use sniff4hound.Prelude.{
  ℕ, suc, ◌-◌, ◌≤◌, ◌<◌, ◌≡◌, refl, ◌∙◌, true, false, some, List, [], ◌∷◌, arith, ltb,
  if◌then◌else◌, get_elem?, subst, ltb→lt,
}
use sniff4hound.Prelude.Tests.{if_elim}
use sniff4hound.Jobs.Core.{
  Outcome, raised, Phase, Job, JobQueue, Errors, modify, settle_job, settle, start_job, start_at,
  begin_with, take_pending, begin, in_phase,
}
use sniff4hound.Jobs.Callers.{skip_job, drain_head, drain}
use sniff4hound.Jobs.Modify.{
  total-modify, get_elem?-modify, All-modify_at, All-get_elem?, waits_at, InOrder,
  waits_at-get_elem?, InOrder-modify_below, InOrder-modify_keeps, InOrder-weaken,
}
use sniff4hound.Jobs.Pool.{held, lost, JobOk, Inv}
use sniff4hound.Jobs.Pool.Settle.{settle-Inv, settle_job-waiting}

module _ {R E : Type 0} where
  -- A job that a worker takes from the queue.
  start_job-JobOk :
      (now : ℕ) (j : Job R E) → in_phase Phase.waiting j ≡ true → JobOk j → JobOk (start_job now j)
  start_job-JobOk now j h v = ground arith

  start_with :
      (q : JobQueue R E) (i now : ℕ) (j : Job R E) (f : Job R E → Job R E) (busy : ℕ)
      → get_elem? q.jobs i ≡ some j
      → in_phase Phase.waiting j ≡ true
      → held (f j) ≡ busy
      → lost (f j) ≡ 0
      → busy ≤ q.idle
      → (JobOk j → JobOk (f j))
      → InOrder q.jobs (suc i) q.pending
      → Inv q
      → Inv (record q { jobs = modify q.jobs i f; idle = q.idle - busy })
  start_with q i now j f busy e h b l room ok o v =
      let helds = total-modify held f q.jobs i j e in
      let losts = total-modify lost f q.jobs i j e in
      let free : held j ≡ 0 = ground arith in
      let whole : lost j ≡ 0 = ground arith in
      record {
        accounted = omega (arith, v.accounted);
        bounded = v.bounded;
        staffed = λ r. omega (arith, v.staffed r);
        at_most = omega (arith, v.at_most);
        queued =
            InOrder-weaken (modify q.jobs i f) 0 (suc i) q.pending (omega arith)
              (InOrder-modify_below f q.jobs i (suc i) q.pending (omega arith) o);
        each = All-modify_at JobOk f q.jobs i j e ok v.each;
      }

  start_at-Inv :
      (q : JobQueue R E) (i now : ℕ) (j : Job R E)
      → get_elem? q.jobs i ≡ some j
      → in_phase Phase.waiting j ≡ true
      → 0 < q.idle
      → InOrder q.jobs (suc i) q.pending
      → Inv q
      → Inv (start_at q i now)
  unfolding start_at
  start_at-Inv q i now j e h room o v = rw e (
      start_with q i now j (start_job now) (if j.is_done then 0 else 1) e h (ground arith)
        (let w = All-get_elem? JobOk q.jobs i j e v.each in ground arith) (ground arith)
        (start_job-JobOk now j h) o v)

  -- A job that waits at the index still does when it was settled.
  settle_first :
      (q : JobQueue R E) (i : ℕ) (o : Outcome R E) (now : ℕ) (j : Job R E)
      → get_elem? q.jobs i ≡ some j
      → in_phase Phase.waiting j ≡ true
      → InOrder q.jobs (suc i) q.pending
      → let q' = settle q i o false now in
        (get_elem? q'.jobs i ≡ some (settle_job q o false now j))
        × (in_phase Phase.waiting (settle_job q o false now j) ≡ true)
        × (q.idle ≤ q'.idle)
        × InOrder q'.jobs (suc i) q'.pending
  unfolding settle
  settle_first q i o now j e h w = (
    get_elem?-modify (settle_job q o false now) q.jobs i j e,
    settle_job-waiting q o false now j ∙ h,
    omega arith,
    InOrder-modify_keeps (settle_job q o false now) q.jobs i (suc i) q.pending
        (settle_job-waiting q o false now) w,
  )

  begin_with-Inv :
      (errors : Errors E) (q : JobQueue R E) (i now : ℕ)
      → Inv q
      → 0 < q.idle
      → waits_at q.jobs i ≡ true
      → InOrder q.jobs (suc i) q.pending
      → Inv (begin_with errors q i now)
  unfolding begin_with
  begin_with-Inv errors q i now v room w o =
      let (j, e, h) = waits_at-get_elem? q.jobs i w in
      let o' : Outcome R E = raised errors.shut_down in
      let (e', h', more, rest) = settle_first q i o' now j e h o in
      if_elim {A = JobQueue R E} {x = settle q i o' false now} {y = q}
        (λ q'. Inv {R = R} {E = E} (start_at q' i now)) q.stopping
        (λ stopped.
          start_at-Inv (settle q i o' false now) i now (settle_job q o' false now j) e' h'
            (omega arith) rest (settle-Inv q i o' false now v))
        (λ open_. start_at-Inv q i now j e h room o v)

  -- The queue without its head.
  popped-Inv :
      (q : JobQueue R E) (i : ℕ) (rest : List ℕ)
      → q.pending ≡ i ∷ rest
      → Inv q
      → Inv (record q { pending = rest })
  popped-Inv q i rest e v = record {
    accounted = v.accounted;
    bounded = v.bounded;
    staffed = v.staffed;
    at_most = v.at_most;
    queued =
        let o : InOrder q.jobs 0 (i ∷ rest) = subst (InOrder q.jobs 0) e v.queued in
        InOrder-weaken q.jobs 0 (suc i) rest (omega arith) o.2;
    each = v.each;
  }

  take_pending-Inv :
      (errors : Errors E) (q : JobQueue R E) (is : List ℕ) (now : ℕ)
      → 0 < q.idle
      → q.pending ≡ is
      → Inv q
      → Inv (take_pending errors q is now)
  take_pending-Inv errors q [] now room e v = v
  take_pending-Inv errors q (i ∷ rest) now room e v =
      let o : InOrder q.jobs 0 (i ∷ rest) = subst (InOrder q.jobs 0) e v.queued in
      begin_with-Inv errors (record q { pending = rest }) i now (popped-Inv q i rest e v) room o.1
        o.2

  pub begin-Inv :
      (errors : Errors E) (q : JobQueue R E) (now : ℕ) → Inv q → Inv (begin errors q now)
  unfolding begin
  begin-Inv errors q now v =
      if_elim Inv (ltb 0 q.idle)
        (λ h. take_pending-Inv errors q q.pending now (ltb→lt _ _ h) refl v) (λ h. v)

  skip_job-JobOk : (j : Job R E) → in_phase Phase.waiting j ≡ true → JobOk j → JobOk (skip_job j)
  skip_job-JobOk j h v = ground arith

  drain_head-Inv :
      (errors : Errors E) (q : JobQueue R E) (is : List ℕ) (now : ℕ)
      → q.pending ≡ is
      → Inv q
      → Inv (drain_head errors q is now)
  drain_head-Inv errors q [] now e v = v
  drain_head-Inv errors q (i ∷ rest) now p v =
      let o : InOrder q.jobs 0 (i ∷ rest) = subst (InOrder q.jobs 0) p v.queued in
      let (j, e, h) = waits_at-get_elem? q.jobs i o.1 in
      let out : Outcome R E = raised errors.shut_down in
      let q₁ : JobQueue R E = record q { pending = rest } in
      let (e', h', more, later) = settle_first q₁ i out now j e h o.2 in
      let v' = settle-Inv q₁ i out false now (popped-Inv q i rest p v) in
      let q₂ : JobQueue R E = settle q₁ i out false now in
      let j' : Job R E = settle_job q₁ out false now j in
      let free : held (skip_job j') ≡ 0 = ground arith in
      let whole : lost (skip_job j') ≡ 0 = ground arith in
      rw (let z : q₂.idle ≡ q₂.idle - 0 = omega arith in z) (
        start_with q₂ i now j' skip_job 0 e' h' free whole (omega arith) (skip_job-JobOk j' h')
          later v')

  pub drain-Inv :
      (errors : Errors E) (q : JobQueue R E) (now : ℕ) → Inv q → Inv (drain errors q now)
  unfolding drain
  drain-Inv errors q now v =
      if_elim Inv q.stopping (λ h. drain_head-Inv errors q q.pending now refl v) (λ h. v)
