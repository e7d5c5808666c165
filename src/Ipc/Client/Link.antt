-- ===== src/Ipc/Client/Link.antt =====
-- What holds of the client in every interleaving (sniff4hound/ipc.py, `IpcClient`): every call that
-- waits for an answer rides the connection that is up.
use sniff4hound.Prelude.Dict.{Dict, lookup, remove}
use sniff4hound.Ipc.Client.{
  Client, PendingCall, Answer, init, set_pending, set_calls, resolve, doomed, pop_each, popped,
  fail_each, fail_all_pending, owns, take_down, drop_connection, set_stopped, close_client,
}
use sniff4hound.Ipc.Client.Pending.{
  Rides, All-pop_each, pop_each-nil, pop_each-doomed, fail_each_generation, rides_same,
}
use sniff4hound.Ipc.Client.Connect.{install, latch_auth_failure, note_failure}
use sniff4hound.Ipc.Client.Call.{register, enlist, unsent, finish, holds_call}
use sniff4hound.Prelude.Text.{text}
use sniff4hound.Prelude.{
  ℕ, ◌≡◌, refl, sym, ap, ◌∙◌, inl, inr, true, false, Option, none, some, List, [], map, arith,
  if◌then◌else◌, Bool-cases, if_elim, is_none, number_eq, pair_eq,
}
use sniff4hound.Ipc.Client.Linked.{
  Linked, init-Linked, Keeps, fewer-Linked, remove-Linked, deliver_to-Linked, some_injective,
  enlist-Linked, install-Linked,
}

emptied-Linked :
    (c : Client) (pending : Dict ℕ ℕ) (calls : ℕ → PendingCall)
    → Linked c
    → pending ≡ []
    → Linked (set_calls calls (set_pending pending (take_down c)))
emptied-Linked c pending calls l nothing = record {
  up_has_sock = refl;
  down_has_none = λ down. nothing;
  all_ride = rw nothing tt;
  reader_known = λ sock h. absurd (cc h);
  reader_old = l.reader_old;
  newest = λ sock h. inl refl;
}

fail_each-Keeps :
    (generation : ℕ) (items error : List ℕ) (calls : ℕ → PendingCall)
    → Keeps generation calls (fail_each items error calls)
unfolding Keeps
fail_each-Keeps generation items error calls call h =
    rides_same generation (calls call) (fail_each items error calls call)
      (fail_each_generation items error calls call) h

-- The generation that goes with a socket, when the socket is the live one.
pub owned_generation :
    (c : Client) (sock generation : ℕ)
    → Linked c
    → owns (some sock) c.sock ≡ true
    → lookup sock c.readers ≡ some generation
    → generation ≡ c.generation
owned_generation c sock generation l owned known =
    some_injective (sym known ∙ l.reader_known sock (live c.sock sock owned))
  where
    live : (held : Option ℕ) (sock : ℕ) → owns (some sock) held ≡ true → held ≡ some sock
    live none sock h = absurd (cc h)
    live (some other) sock h = ap some (ground arith)

pub drop_connection-Linked :
    (c : Client) (sock generation : ℕ) (error : List ℕ)
    → Linked c
    → lookup sock c.readers ≡ some generation
    → Linked (drop_connection (some sock) error (some generation) c)
unfolding drop_connection fail_all_pending
drop_connection-Linked c sock generation error l known =
    elim (Bool-cases (owns (some sock) c.sock)) [
      | inl owned ↦
          let same = owned_generation c sock generation l owned known in
          rw owned (
            emptied-Linked c (pop_each (doomed generation c.calls c.pending) c.pending)
              (fail_each (popped (doomed generation c.calls c.pending) c.pending) error c.calls) l
              (rw same (pop_each-doomed c.generation c.calls c.pending l.all_ride)))
      | inr stale ↦ rw stale (
          fewer-Linked c (pop_each (doomed generation c.calls c.pending) c.pending)
            (fail_each (popped (doomed generation c.calls c.pending) c.pending) error c.calls) l
            (λ e.
              ap (pop_each (doomed generation c.calls c.pending)) e
              ∙ pop_each-nil (doomed generation c.calls c.pending))
            (All-pop_each (Rides c.generation c.calls) (doomed generation c.calls c.pending)
              c.pending l.all_ride)
            (fail_each-Keeps c.generation (popped (doomed generation c.calls c.pending) c.pending)
              error c.calls))
    ]

set_stopped-Linked : (c : Client) → Linked c → Linked (set_stopped c)
set_stopped-Linked c l = record {
  up_has_sock = l.up_has_sock;
  down_has_none = l.down_has_none;
  all_ride = l.all_ride;
  reader_known = l.reader_known;
  reader_old = l.reader_old;
  newest = l.newest;
}

close_client-Linked : (c : Client) (sock : Option ℕ) → Linked c → Linked (close_client sock c)
unfolding close_client drop_connection fail_all_pending
close_client-Linked c sock l =
    let calls = fail_each (map (λ e. e.1) c.pending) (text "IPC client closed") c.calls in
    elim (Bool-cases (owns sock c.sock)) [
      | inl owned ↦ rw owned (emptied-Linked (set_stopped c) [] calls (set_stopped-Linked c l) refl)
      | inr stale ↦ rw stale (
          fewer-Linked (set_stopped c) [] calls (set_stopped-Linked c l) (λ e. refl) tt
            (fail_each-Keeps c.generation (map (λ e. e.1) c.pending) (text "IPC client closed")
              c.calls))
    ]

unsent-Linked :
    (c : Client) (call request_id sock generation : ℕ)
    → Linked c
    → lookup sock c.readers ≡ some generation
    → (c.calls call).generation ≡ some generation
    → Linked (unsent call request_id sock c)
unfolding unsent
unsent-Linked c call request_id sock generation l known riding = rw riding (
    drop_connection-Linked (set_pending (remove request_id c.pending) c) sock generation
      (text "IPC connection lost") (remove-Linked c request_id l) known)

finish-Linked : (c : Client) (call request_id : ℕ) → Linked c → Linked (finish call request_id c)
unfolding finish
finish-Linked c call request_id l =
    if_elim {x = set_pending (remove request_id c.pending) c} {y = c} Linked
      (holds_call (lookup request_id c.pending) call) (λ h. remove-Linked c request_id l) (λ h. l)

register-Linked :
    (c : Client) (call request_id : ℕ) → Linked c → Linked ((register call request_id c).1)
unfolding register
register-Linked c call request_id l =
    let live : Option ℕ = if c.connected then c.sock else none in
    if_elim {x = c} {y = enlist call request_id c} Linked (is_none live) (λ down. l)
      (λ up. enlist-Linked c call request_id l (ground arith))

latch-Linked : (c : Client) → Linked c → Linked (latch_auth_failure c)
unfolding latch_auth_failure
latch-Linked c l = record {
  up_has_sock = l.up_has_sock;
  down_has_none = l.down_has_none;
  all_ride = l.all_ride;
  reader_known = l.reader_known;
  reader_old = l.reader_old;
  newest = l.newest;
}

note-Linked : (c : Client) (now : ℕ) → Linked c → Linked (note_failure now c)
unfolding note_failure
note-Linked c now l = record {
  up_has_sock = l.up_has_sock;
  down_has_none = l.down_has_none;
  all_ride = l.all_ride;
  reader_known = l.reader_known;
  reader_old = l.reader_old;
  newest = l.newest;
}

-- One step of some thread. A new socket is an object that no reader has.
pub data Step : Client → Client → Type 0 where
  connects :
      {c : Client} (sock : ℕ)
      → c.connected ≡ false
      → lookup sock c.readers ≡ none
      → Step c (install sock c)
  is_refused : {c : Client} → Step c (latch_auth_failure c)
  fails_to_connect : {c : Client} (now : ℕ) → Step c (note_failure now c)
  registers : {c : Client} (call request_id : ℕ) → Step c ((register call request_id c).1)
  fails_to_send :
      {c : Client} (call request_id sock generation : ℕ)
      → lookup sock c.readers ≡ some generation
      → (c.calls call).generation ≡ some generation
      → Step c (unsent call request_id sock c)
  resolves : {c : Client} (request_id : ℕ) (answer : Answer) → Step c (resolve request_id answer c)
  finishes : {c : Client} (call request_id : ℕ) → Step c (finish call request_id c)
  reader_stops :
      {c : Client} (sock generation : ℕ) (error : List ℕ)
      → lookup sock c.readers ≡ some generation
      → Step c (drop_connection (some sock) error (some generation) c)
  closes : {c : Client} (sock : Option ℕ) → Step c (close_client sock c)

pub data Reached : Client → Type 0 where
  initially : Reached init
  after : {b c : Client} → Reached b → Step b c → Reached c

Step-Linked : {b c : Client} → Step b c → Linked b → Linked c
Step-Linked {b} (connects sock down fresh) l = install-Linked b sock l down fresh
Step-Linked {b} is_refused l = latch-Linked b l
Step-Linked {b} (fails_to_connect now) l = note-Linked b now l
Step-Linked {b} (registers call request_id) l = register-Linked b call request_id l
Step-Linked {b} (fails_to_send call request_id sock generation known riding) l =
    unsent-Linked b call request_id sock generation l known riding
Step-Linked {b} (resolves request_id answer) l =
    unfold resolve in
    deliver_to-Linked (lookup request_id b.pending) answer
      (set_pending (remove request_id b.pending) b) (remove-Linked b request_id l)
Step-Linked {b} (finishes call request_id) l = finish-Linked b call request_id l
Step-Linked {b} (reader_stops sock generation error known) l =
    drop_connection-Linked b sock generation error l known
Step-Linked {b} (closes sock) l = close_client-Linked b sock l

-- Whatever the threads have done, in whatever order: a call waits for an answer only while the link
-- is up, and rides the connection that is up.
pub Reached-Linked : {c : Client} → Reached c → Linked c
Reached-Linked initially = init-Linked
Reached-Linked (after r s) = Step-Linked s (Reached-Linked r)
