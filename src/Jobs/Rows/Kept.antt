-- ===== src/Jobs/Rows/Kept.antt =====
-- sniff4hound/jobs.py: every change of a job keeps what is known of its row and its writers.
use sniff4hound.Prelude.{
  ℕ, ◌≡◌, refl, Bool, false, none, some, List, arith, ltb, if◌then◌else◌, All, inr, subst,
}
use sniff4hound.Prelude.Tests.{if_elim}
use sniff4hound.Prelude.Text.{Text}
use sniff4hound.Jobs.Core.{Finisher, Job, Errors, snapshot, new_job}
use sniff4hound.Jobs.Callers.{finish_snap_job, finish_store_job, reap_job}
use sniff4hound.Jobs.Run.{Action, init, run}
use sniff4hound.Jobs.Changes.{Stable, Changed-All, run-Changed}
use sniff4hound.Jobs.Outcomes.{Keeps}
use sniff4hound.Jobs.Rows.{
  HoldsFinal, RowSeen, RowOk, SnapSeen-Keeps, RowSeen-Keeps, HoldsFinal-Keeps, flags, RowOk-of,
}
use sniff4hound.Jobs.Rows.Calling.{
  moving, settling, starting, discarding, dropping, answering, claiming, snapping, storing,
}

module _ {R E : Type 0} where
  finish_snapping : (j : Job R E) → RowOk j → RowOk (finish_snap_job j)
  unfolding finish_snap_job snapshot
  finish_snapping j v = go j.finisher refl
    where
      go :
          (f : Finisher R E)
          → j.finisher ≡ f
          → RowOk (elim f [
            | Finisher.owes ↦ record j { finisher = Finisher.holds (snapshot j) }
            | _ ↦ j
          ])
      go Finisher.owes e =
          let k : Job R E = record j { finisher = Finisher.holds (snapshot j) } in
          let keeps : Keeps j k = record {
            done = λ d. d;
            outcome = λ d. refl;
            dropped = λ d. d;
            claimed = λ d. d;
          } in
          RowOk-of k (let f = flags j v in ground arith)
            (subst (λ f. HoldsFinal f j) e v.holds_final, refl)
            (SnapSeen-Keeps j.caller j k keeps v.snap_seen)
            (RowSeen-Keeps j.row j k keeps v.row_seen)
      go Finisher.silent e = v
      go Finisher.wrote e = v
      go (Finisher.holds s) e = v

  finish_storing : (written : Bool) (j : Job R E) → RowOk j → RowOk (finish_store_job written j)
  unfolding finish_store_job snapshot
  finish_storing w j v = go j.finisher refl
    where
      go :
          (f : Finisher R E)
          → j.finisher ≡ f
          → RowOk (elim f [
            | Finisher.holds s ↦ record j {
              finisher = Finisher.wrote;
              row = if w then some s else j.row;
            }
            | _ ↦ j
          ])
      go (Finisher.holds s) e =
          let k : Job R E = record j {
            finisher = Finisher.wrote;
            row = if w then some s else j.row;
          } in
          let keeps : Keeps j k = record {
            done = λ d. d;
            outcome = λ d. refl;
            dropped = λ d. d;
            claimed = λ d. d;
          } in
          let (d, final) : HoldsFinal (Finisher.holds s) j =
            subst (λ f. HoldsFinal f j) e v.holds_final in
          RowOk-of k (let f = flags j v in ground arith) d
            (SnapSeen-Keeps j.caller j k keeps v.snap_seen)
            (if_elim (λ r. RowSeen r k) w (λ h. inr (d, final))
              (λ h. RowSeen-Keeps j.row j k keeps v.row_seen))
      go Finisher.owes e = v
      go Finisher.silent e = v
      go Finisher.wrote e = v

  reaping : (cutoff : ℕ) (j : Job R E) → RowOk j → RowOk (reap_job cutoff j)
  unfolding reap_job snapshot
  reaping cutoff j v =
      if_elim RowOk (ltb j.created_at cutoff)
        (λ old.
          let k : Job R E = record j {
            row = none;
            registered = if j.is_done then false else j.registered;
          } in
          let keeps : Keeps j k = ground arith in
          RowOk-of k (flags j v) (HoldsFinal-Keeps j.finisher j k keeps v.holds_final)
            (SnapSeen-Keeps j.caller j k keeps v.snap_seen) tt)
        (λ young. v)

  Carries-Stable : Stable {R = R} {E = E} (λ j k. RowOk j → RowOk k)
  Carries-Stable = record {
    same = λ j v. v;
    chain = λ j k l f g v. g (f v);
    settling = settling;
    starting = starting;
    moving = moving;
    answering = answering;
    claiming = claiming;
    snapping = snapping;
    storing = storing;
    finish_snapping = finish_snapping;
    finish_storing = finish_storing;
    discarding = discarding;
    dropping = dropping;
    reaping = reaping;
  }

  new_job-RowOk :
      (kind : Text) (persist : Bool) (now : ℕ) → RowOk (new_job {R = R} {E = E} kind persist now)
  unfolding new_job
  new_job-RowOk kind persist now = RowOk-of (new_job kind persist now) (ground arith) tt tt tt

  -- After any schedule from a new queue, every job satisfies: a settled job that was claimed for
  -- polling has a thread that owes its row, holds the final snapshot or has written it, and no other
  -- job has one, so that the two never both skip the write; a caller that polls has claimed the job,
  -- which was submitted with persist; and every snapshot that is held or stored is either the final
  -- one or was taken before the job was settled.
  pub run-RowOk :
      (errors : Errors E) (workers timeout : ℕ) (actions : List (Action R E))
      → All RowOk (run errors (init workers timeout) actions).jobs
  unfolding init
  run-RowOk errors workers timeout actions =
      Changed-All (λ j k. RowOk j → RowOk k) Carries-Stable RowOk _ new_job-RowOk (λ j k f v. f v)
        (run-Changed (λ j k. RowOk j → RowOk k) Carries-Stable errors (init workers timeout)
          actions)
