-- ===== src/Ipc/Client/Drop.antt =====
-- What the end of a connection does to the calls (sniff4hound/ipc.py, `_drop_connection` and
-- `_fail_all_pending`): those that rode it get an answer, those of a newer one are left alone.
use sniff4hound.Prelude.Dict.{Dict, lookup}
use sniff4hound.Prelude.Window.{All-map}
use sniff4hound.Ipc.Client.{
  Client, PendingCall, rides, doomed, popped, owns, failure, drop_connection, fail_all_pending,
}
use sniff4hound.Prelude.Text.{text}
use sniff4hound.Ipc.Client.Call.{reader_ends}
use sniff4hound.Ipc.Client.Pending.{
  Rides, doomed_none, pop_each-doomed, fail_each-elem, popped-elem, doomed-elem,
}
use sniff4hound.Ipc.Client.Linked.{Linked}
use sniff4hound.Ipc.Client.Link.{Reached, Reached-Linked, owned_generation}
use sniff4hound.Prelude.{
  ℕ, ◌≡◌, refl, sym, ap, ◌∙◌, subst, ◌≢◌, inl, inr, true, false, Option, none, some, List, [], ◌∷◌,
  arith, nat_beq, All, Bool-cases, ◌==◌, same_refl, number_eq, pair_eq,
}

rides_no_other :
    (current generation : ℕ) (call : PendingCall)
    → current ≢ generation
    → rides current call ≡ true
    → rides generation call ≡ false
rides_no_other current generation call differ h = go call.generation h
  where
    go :
        (riding : Option ℕ)
        → elim riding [ none ↦ false | some g ↦ nat_beq g current ] ≡ true
        → elim riding [ none ↦ false | some g ↦ nat_beq g generation ] ≡ false
    go none h = refl
    go (some g) h = ground arith

other_generation :
    (c : Client) (sock live generation : ℕ)
    → Linked c
    → lookup sock c.readers ≡ some generation
    → c.sock ≡ some live
    → sock ≢ live
    → c.generation ≢ generation
other_generation c sock live generation l known held other same =
    elim (l.newest sock (known ∙ ap some (sym same))) [
      | inl down ↦ absurd (cc)
      | inr current ↦ other (cc)
    ]

-- The reader of a connection that was replaced stops late: the client stays exactly as it is.
late_reader-Harmless :
    (c : Client) (sock live generation : ℕ) (error : List ℕ)
    → Reached c
    → lookup sock c.readers ≡ some generation
    → c.sock ≡ some live
    → sock ≢ live
    → drop_connection (some sock) error (some generation) c ≡ c
unfolding drop_connection fail_all_pending
late_reader-Harmless c sock live generation error reached known held other =
    let l = Reached-Linked reached in
    let differ = other_generation c sock live generation l known held other in
    rw (let e : owns (some sock) c.sock ≡ false = rw held (ground arith) in e) (
      rw
        (doomed_none generation c.calls c.pending (
          All-map (λ e h. rides_no_other c.generation generation (c.calls (e.1)) differ h) c.pending
            l.all_ride))
        refl)

lookup-All :
    (generation : ℕ) (calls : ℕ → PendingCall) (d : Dict ℕ ℕ) (key call : ℕ)
    → All (Rides generation calls) d
    → lookup key d ≡ some call
    → rides generation (calls call) ≡ true
unfolding lookup
lookup-All generation calls [] key call h found = absurd (cc found)
lookup-All generation calls ((k, other) ∷ d) key call h found = elim (Bool-cases (k == key)) [
  | inl same ↦
      let e : other ≡ call = cc (rw same at found) in
      subst (λ x. rides generation (calls x) ≡ true) e h.0
  | inr differs ↦ lookup-All generation calls d key call h.1 (rw differs at found)
]

-- What the end of the live connection leaves: no connection, no call that waits, and every call that
-- waited has the failure as its answer.
pub record Failed (error : List ℕ) (before after : Client) : Type 0 where
  pub no_link : (after.connected ≡ false) × (after.sock ≡ none)
  pub none_waits : after.pending ≡ []
  pub all_told :
      (request_id call : ℕ)
      → lookup request_id before.pending ≡ some call
      → (after.calls call).message ≡ some (failure error)

live_reader-Failed :
    (c : Client) (sock generation : ℕ) (error : List ℕ)
    → Reached c
    → lookup sock c.readers ≡ some generation
    → c.sock ≡ some sock
    → Failed error c (drop_connection (some sock) error (some generation) c)
unfolding drop_connection fail_all_pending
live_reader-Failed c sock generation error reached known held =
    let l = Reached-Linked reached in
    let owned : owns (some sock) c.sock ≡ true = rw held (same_refl sock) in
    let same = owned_generation c sock generation l owned known in
    let keys = doomed generation c.calls c.pending in
    rw owned (record {
      no_link = (refl, refl);
      none_waits = rw same (pop_each-doomed c.generation c.calls c.pending l.all_ride);
      all_told = λ request_id call found.
          fail_each-elem (popped keys c.pending) error c.calls call (
            popped-elem keys c.pending request_id call found (
              doomed-elem generation c.calls c.pending request_id call found (
                rw same
                  (lookup-All c.generation c.calls c.pending request_id call l.all_ride found))));
    })

-- The two ways a connection can end: it was the live one, or another is.
pub data Scope (sock live : ℕ) (before after : Client) : Type 0 where
  its_own :
      sock ≡ live → Failed (text "IPC connection lost") before after → Scope sock live before after
  another : sock ≢ live → after ≡ before → Scope sock live before after

-- When the reader of a connection stops, in any state that the threads can reach: if its connection is
-- the live one, the link is down, no call waits, and each that waited has the failure for its answer;
-- if another connection is live, the client stays exactly as it is, that connection and the calls
-- on it included.
pub reader_ends-Scope :
    (c : Client) (sock live generation : ℕ)
    → Reached c
    → lookup sock c.readers ≡ some generation
    → c.sock ≡ some live
    → Scope sock live c (reader_ends sock generation c)
unfolding reader_ends
reader_ends-Scope c sock live generation reached known held =
    elim (Bool-cases (nat_beq sock live)) [
      | inl same ↦
          let e : sock ≡ live = ground arith in
          its_own e (
            live_reader-Failed c sock generation (text "IPC connection lost") reached known
              (held ∙ ap some (sym e)))
      | inr differ ↦
          let other : sock ≢ live = λ e. ground arith in
          another other (
            late_reader-Harmless c sock live generation (text "IPC connection lost") reached known
              held other)
    ]
