-- ===== src/Jobs/Rows.antt =====
-- sniff4hound/jobs.py: which thread writes the row of a settled job, and what the row says.
pub mod Calling
pub mod Kept
use sniff4hound.Prelude.{
  ℕ, ◌≡◌, refl, sym, ◌∙◌, Bool, true, false, not, ◌||◌, Option, none, some, List, arith, ltb,
  if◌then◌else◌, All, inl, inr, ◌⊎◌, subst, Bool-cases,
}
use sniff4hound.Prelude.Tests.{if_elim}
use sniff4hound.Prelude.Text.{Text}
use sniff4hound.Jobs.Core.{
  Status, Outcome, returned, raised, Phase, Snapshot, Caller, Finisher, Job, JobQueue, Errors,
  snapshot, new_job, settled_job, replaces, settle_job, start_job,
}
use sniff4hound.Jobs.Callers.{
  answer_job, claim_job, snap_job, store_job, finish_snap_job, finish_store_job, to_discarding,
  drop_job, reap_job,
}
use sniff4hound.Jobs.Run.{Action, init, run}
use sniff4hound.Jobs.Changes.{Stable, Changed-All, run-Changed}
use sniff4hound.Jobs.Outcomes.{Keeps, Keeps-Stable}

-- The statuses of a job that is not settled.
abbrev pub is_open : Status → Bool
is_open Status.queued = true
is_open Status.running = true
is_open Status.done = false
is_open Status.error = false

module _ {R E : Type 0} where
  -- A snapshot of the job before it was settled, or the final one.
  abbrev pub Seen : Snapshot R E → Job R E → Type 0
  Seen s j = (is_open s.status ≡ true) ⊎ ((j.is_done ≡ true) × (s ≡ snapshot j))

  abbrev pub is_silent : Finisher R E → Bool
  is_silent Finisher.silent = true
  is_silent Finisher.owes = false
  is_silent Finisher.wrote = false
  is_silent (Finisher.holds s) = false

  -- The callers that poll for the job.
  abbrev pub polls : Caller R E → Bool
  polls Caller.asking = false
  polls Caller.inlined = false
  polls Caller.discarding = false
  polls Caller.timed_out = false
  polls Caller.claimed = true
  polls Caller.deferred = true
  polls (Caller.snapped s) = true

  abbrev pub HoldsFinal : Finisher R E → Job R E → Type 0
  HoldsFinal (Finisher.holds s) j = (j.is_done ≡ true) × (s ≡ snapshot j)
  HoldsFinal Finisher.silent j = Unit
  HoldsFinal Finisher.owes j = j.is_done ≡ true
  HoldsFinal Finisher.wrote j = j.is_done ≡ true

  abbrev pub SnapSeen : Caller R E → Job R E → Type 0
  SnapSeen (Caller.snapped s) j = Seen s j
  SnapSeen Caller.asking j = Unit
  SnapSeen Caller.claimed j = Unit
  SnapSeen Caller.deferred j = Unit
  SnapSeen Caller.inlined j = Unit
  SnapSeen Caller.discarding j = Unit
  SnapSeen Caller.timed_out j = Unit

  abbrev pub RowSeen : Option (Snapshot R E) → Job R E → Type 0
  RowSeen none j = Unit
  RowSeen (some s) j = Seen s j

  pub record RowOk (j : Job R E) : Type 0 where
    pub unsettled_open : j.is_done ≡ false → is_open j.status ≡ true
    pub polled_persisted : polls j.caller ≡ true → j.persisted ≡ true
    pub persisted_asked : j.persisted ≡ true → j.persist ≡ true
    pub owed : j.is_done ≡ true → j.persisted ≡ true → is_silent j.finisher ≡ false
    pub unowed : j.persisted ≡ false → is_silent j.finisher ≡ true
    pub holds_final : HoldsFinal j.finisher j
    pub snap_seen : SnapSeen j.caller j
    pub row_seen : RowSeen j.row j

  pub Seen-Keeps : (s : Snapshot R E) (j k : Job R E) → Keeps j k → Seen s j → Seen s k
  Seen-Keeps s j k v (inl o) = inl o
  Seen-Keeps s j k v (inr f) = inr (v.done f.0, f.1 ∙ sym (v.outcome f.0))

  pub SnapSeen-Keeps : (c : Caller R E) (j k : Job R E) → Keeps j k → SnapSeen c j → SnapSeen c k
  SnapSeen-Keeps (Caller.snapped s) j k v h = Seen-Keeps s j k v h
  SnapSeen-Keeps Caller.asking j k v h = tt
  SnapSeen-Keeps Caller.claimed j k v h = tt
  SnapSeen-Keeps Caller.deferred j k v h = tt
  SnapSeen-Keeps Caller.inlined j k v h = tt
  SnapSeen-Keeps Caller.discarding j k v h = tt
  SnapSeen-Keeps Caller.timed_out j k v h = tt

  pub RowSeen-Keeps :
      (r : Option (Snapshot R E)) (j k : Job R E) → Keeps j k → RowSeen r j → RowSeen r k
  RowSeen-Keeps none j k v h = tt
  RowSeen-Keeps (some s) j k v h = Seen-Keeps s j k v h

  pub HoldsFinal-Keeps :
      (f : Finisher R E) (j k : Job R E) → Keeps j k → HoldsFinal f j → HoldsFinal f k
  HoldsFinal-Keeps (Finisher.holds s) j k v h = (v.done h.0, h.1 ∙ sym (v.outcome h.0))
  HoldsFinal-Keeps Finisher.silent j k v h = tt
  HoldsFinal-Keeps Finisher.owes j k v h = v.done h
  HoldsFinal-Keeps Finisher.wrote j k v h = v.done h

  -- The snapshot of any job whose unfinished status is open.
  pub Seen-snapshot : (j : Job R E) → RowOk j → Seen (snapshot j) j
  unfolding snapshot
  Seen-snapshot j v = elim (Bool-cases j.is_done) [
    | inl d ↦ inr (d, refl)
    | inr u ↦ inl (v.unsettled_open u)
  ]

  -- The flags, apart from the snapshots that are held.
  abbrev pub Flags : Job R E → Type 0
  Flags j =
      (j.is_done ≡ false → is_open j.status ≡ true)
      × (polls j.caller ≡ true → j.persisted ≡ true)
      × (j.persisted ≡ true → j.persist ≡ true)
      × (j.is_done ≡ true → j.persisted ≡ true → is_silent j.finisher ≡ false)
      × (j.persisted ≡ false → is_silent j.finisher ≡ true)

  pub flags : (j : Job R E) → RowOk j → Flags j
  flags j v = (v.unsettled_open, v.polled_persisted, v.persisted_asked, v.owed, v.unowed)

  -- A change that keeps outcomes is shown by its flags and the snapshots of the new job.
  pub RowOk-of :
      (k : Job R E)
      → Flags k
      → HoldsFinal k.finisher k
      → SnapSeen k.caller k
      → RowSeen k.row k
      → RowOk k
  RowOk-of k (a, b, c, d, e) f g h = record {
    unsettled_open = a;
    polled_persisted = b;
    persisted_asked = c;
    owed = d;
    unowed = e;
    holds_final = f;
    snap_seen = g;
    row_seen = h;
  }

  -- A change that touches neither the writers nor the row.
  pub RowOk-still :
      (j k : Job R E)
      → Keeps j k
      → (Flags j → Flags k)
      → k.finisher ≡ j.finisher
      → k.caller ≡ j.caller
      → k.row ≡ j.row
      → RowOk j
      → RowOk k
  RowOk-still j k s h e₁ e₂ e₃ v =
      RowOk-of k (h (flags j v))
        (subst (λ f. HoldsFinal f k) (sym e₁) (HoldsFinal-Keeps j.finisher j k s v.holds_final))
        (subst (λ c. SnapSeen c k) (sym e₂) (SnapSeen-Keeps j.caller j k s v.snap_seen))
        (subst (λ r. RowSeen r k) (sym e₃) (RowSeen-Keeps j.row j k s v.row_seen))

  pub still :
      (f : Job R E → Job R E) (j : Job R E)
      → Keeps j (f j)
      → (Flags j → Flags (f j))
      → (f j).finisher ≡ j.finisher
      → (f j).caller ≡ j.caller
      → (f j).row ≡ j.row
      → RowOk j
      → RowOk (f j)
  still f j = RowOk-still j (f j)

  -- The caller moves on, to a place where it holds no snapshot.
  pub calling :
      (j k : Job R E)
      → Keeps j k
      → Flags k
      → k.finisher ≡ j.finisher
      → SnapSeen k.caller k
      → k.row ≡ j.row
      → RowOk j
      → RowOk k
  calling j k s f e₁ c e₂ v =
      RowOk-of k f
        (subst (λ f. HoldsFinal f k) (sym e₁) (HoldsFinal-Keeps j.finisher j k s v.holds_final)) c
        (subst (λ r. RowSeen r k) (sym e₂) (RowSeen-Keeps j.row j k s v.row_seen))
