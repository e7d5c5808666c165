-- ===== src/Jobs/Rows/Calling.antt =====
-- sniff4hound/jobs.py: the changes that a worker and a caller make to a job keep what is known of its row.
use sniff4hound.Prelude.{
  ℕ, ◌≡◌, refl, Bool, true, false, not, ◌||◌, some, arith, if◌then◌else◌, subst,
}
use sniff4hound.Prelude.Tests.{if_elim}
use sniff4hound.Jobs.Core.{
  Status, Outcome, returned, raised, Phase, Caller, Finisher, Job, JobQueue, snapshot, settled_job,
  replaces, settle_job, start_job,
}
use sniff4hound.Jobs.Callers.{answer_job, claim_job, snap_job, store_job, to_discarding, drop_job}
use sniff4hound.Jobs.Outcomes.{Keeps, Keeps-Stable}
use sniff4hound.Jobs.Rows.{
  Seen, HoldsFinal, SnapSeen, RowSeen, RowOk, Seen-Keeps, SnapSeen-Keeps, RowSeen-Keeps,
  HoldsFinal-Keeps, Seen-snapshot, flags, RowOk-of, RowOk-still, still, calling,
}

module _ {R E : Type 0} where
  settled_open :
      (j : Job R E) (o : Outcome R E) (now : ℕ)
      → j.is_done ≡ false
      → RowOk j
      → Keeps j (settled_job j o now)
      → RowOk (settled_job j o now)
  settled_open j (returned r) now u v s =
      RowOk-of (settled_job j (returned r) now) (let f = flags j v in ground arith)
        (if_elim {A = Finisher R E} (λ f. HoldsFinal f (settled_job j (returned r) now)) j.persisted
          (λ h. refl) (λ h. tt))
        (SnapSeen-Keeps j.caller j _ s v.snap_seen) (RowSeen-Keeps j.row j _ s v.row_seen)
  settled_open j (raised e) now u v s =
      RowOk-of (settled_job j (raised e) now) (let f = flags j v in ground arith)
        (if_elim {A = Finisher R E} (λ f. HoldsFinal f (settled_job j (raised e) now)) j.persisted
          (λ h. refl) (λ h. tt))
        (SnapSeen-Keeps j.caller j _ s v.snap_seen) (RowSeen-Keeps j.row j _ s v.row_seen)

  pub moving : (p : Phase) (j : Job R E) → RowOk j → RowOk (record j { phase = p })
  moving p j v =
      still (λ j. record j { phase = p }) j (Keeps-Stable.moving p j) (λ f. f) refl refl refl v

  marked : (b : Bool) (j : Job R E) → RowOk j → RowOk (record j { abandoned = b })
  unfolding snapshot
  marked b j v =
      RowOk-still j (record j { abandoned = b })
        (record { done = λ d. d; outcome = λ d. refl; dropped = λ d. d; claimed = λ d. d }) (λ f. f)
        refl refl refl v

  settled_open-Keeps :
      (j : Job R E) (o : Outcome R E) (now : ℕ) → j.is_done ≡ false → Keeps j (settled_job j o now)
  settled_open-Keeps j (returned r) now u = ground arith
  settled_open-Keeps j (raised e) now u = ground arith

  pub settling :
      (q : JobQueue R E) (o : Outcome R E) (late : Bool) (now : ℕ) (j : Job R E)
      → RowOk j
      → RowOk (settle_job q o late now j)
  unfolding settle_job
  settling q o late now j v =
      if_elim RowOk j.is_done (λ d. v)
        (λ u.
          let j' : Job R E = record j { abandoned = replaces q j late || j.abandoned } in
          settled_open j' o now u (marked _ j v) (settled_open-Keeps j' o now u))

  pub starting : (now : ℕ) (j : Job R E) → RowOk j → RowOk (start_job now j)
  starting now j v =
      if_elim RowOk j.is_done (λ d. moving Phase.gone j v)
        (λ u.
          let k : Job R E = record j {
            status = Status.running;
            started_mono = now;
            phase = Phase.handling;
          } in
          RowOk-still j k
            (record { done = λ d. d; outcome = λ d. cc; dropped = λ d. d; claimed = λ d. d })
            (λ f. ground arith) refl refl refl v)

  pub discarding : (j : Job R E) → RowOk j → RowOk (to_discarding j)
  discarding j v =
      calling j (to_discarding j) (Keeps-Stable.discarding j) (let f = flags j v in ground arith)
        refl tt refl v

  pub dropping : (j : Job R E) → RowOk j → RowOk (drop_job j)
  dropping j v =
      calling j (drop_job j) (Keeps-Stable.dropping j) (let f = flags j v in ground arith) refl tt
        refl v

  pub answering : (j : Job R E) → RowOk j → RowOk (answer_job j)
  unfolding snapshot
  answering j v = go j.caller refl
    where
      go :
          (c : Caller R E)
          → j.caller ≡ c
          → RowOk (elim c [
            | Caller.asking ↦
                (if j.is_done then record j { caller = Caller.inlined; registered = false } else j)
            | _ ↦ j
          ])
      go Caller.asking e =
          (if_elim RowOk j.is_done
            (λ d.
              calling j (record j { caller = Caller.inlined; registered = false }) (ground arith)
                (let f = flags j v in ground arith) refl tt refl v)
            (λ u. v))
      go Caller.claimed e = v
      go Caller.deferred e = v
      go Caller.inlined e = v
      go Caller.discarding e = v
      go Caller.timed_out e = v
      go (Caller.snapped s) e = v

  claimed_job :
      (j : Job R E)
      → j.persist ≡ true
      → j.is_done ≡ false
      → RowOk j
      → RowOk (record j { persisted = true; caller = Caller.claimed })
  claimed_job j p u v =
      calling j (record j { persisted = true; caller = Caller.claimed }) (ground arith)
        (let f = flags j v in ground arith) refl tt refl v

  pub claiming : (j : Job R E) → RowOk j → RowOk (claim_job j)
  unfolding snapshot
  claiming j v = go j.caller refl
    where
      go :
          (c : Caller R E)
          → j.caller ≡ c
          → RowOk (elim c [
            | Caller.asking ↦
                if not j.persist
                then j
                else (if j.is_done
                    then record j { caller = Caller.inlined; registered = false }
                    else record j { persisted = true; caller = Caller.claimed })
            | _ ↦ j
          ])
      go Caller.asking e =
          (if_elim RowOk (not j.persist) (λ p. v)
            (λ p.
              if_elim RowOk j.is_done
                (λ d.
                  calling j (record j { caller = Caller.inlined; registered = false })
                    (ground arith) (let f = flags j v in ground arith) refl tt refl v)
                (λ u. claimed_job j (ground arith) u v)))
      go Caller.claimed e = v
      go Caller.deferred e = v
      go Caller.inlined e = v
      go Caller.discarding e = v
      go Caller.timed_out e = v
      go (Caller.snapped s) e = v

  pub snapping : (j : Job R E) → RowOk j → RowOk (snap_job j)
  unfolding snap_job
  snapping j v = go j.caller refl
    where
      go :
          (c : Caller R E)
          → j.caller ≡ c
          → RowOk (elim c [
            | Caller.claimed ↦ record j { caller = Caller.snapped (snapshot j) }
            | _ ↦ j
          ])
      go Caller.claimed e =
          (calling j (record j { caller = Caller.snapped (snapshot j) }) (ground arith)
            (let f = flags j v in ground arith) refl (Seen-snapshot j v) refl v)
      go Caller.asking e = v
      go Caller.deferred e = v
      go Caller.inlined e = v
      go Caller.discarding e = v
      go Caller.timed_out e = v
      go (Caller.snapped s) e = v

  pub storing : (written : Bool) (j : Job R E) → RowOk j → RowOk (store_job written j)
  unfolding store_job snapshot
  storing w j v = go j.caller refl
    where
      go :
          (c : Caller R E)
          → j.caller ≡ c
          → RowOk (elim c [
            | Caller.snapped s ↦ record j {
              caller = Caller.deferred;
              row = if w then some s else j.row;
            }
            | _ ↦ j
          ])
      go (Caller.snapped s) e =
          let k : Job R E = record j {
            caller = Caller.deferred;
            row = if w then some s else j.row;
          } in
          let keeps : Keeps j k = record {
            done = λ d. d;
            outcome = λ d. refl;
            dropped = λ d. d;
            claimed = λ d. d;
          } in
          let seen : Seen s j = subst (λ c. SnapSeen c j) e v.snap_seen in
          RowOk-of k (let f = flags j v in ground arith)
            (HoldsFinal-Keeps j.finisher j k keeps v.holds_final) tt
            (if_elim (λ r. RowSeen r k) w (λ h. Seen-Keeps s j k keeps seen)
              (λ h. RowSeen-Keeps j.row j k keeps v.row_seen))
      go Caller.claimed e = v
      go Caller.asking e = v
      go Caller.deferred e = v
      go Caller.inlined e = v
      go Caller.discarding e = v
      go Caller.timed_out e = v
