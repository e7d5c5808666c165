-- ===== src/Ipc/Client.antt =====
-- sniff4hound/ipc.py: `IpcClient` and `_PendingCall`. The calls are objects that the table of
-- pending requests points to, so they stand in a store; sockets, requests and calls are numbers,
-- times are milliseconds. A function is what one thread does under `_connect_lock` or
-- `_pending_lock`; threads interleave between the functions.
pub mod Connect
pub mod Call
pub mod Pending
pub mod Linked
pub mod Link
pub mod Drop
pub mod Once
pub mod Callers
pub mod Attempts
pub mod Moves
pub mod Threads
use sniff4hound.Prelude.Dict.{Dict, lookup, insert, remove}
use sniff4hound.Prelude.{
  ℕ, zero, suc, ◌+◌, ◌-◌, ◌*◌, ◌/◌, ◌%◌, ◌^◌, ◌≤◌, ◌<◌, min, max, ◌≡◌, refl, sym, ap, ◌∙◌, subst,
  ◌≢◌, ◌↔◌, ◌⊎◌, inl, inr, Bool, true, false, not, ◌&&◌, ◌||◌, Option, none, some, List, [], ◌∷◌,
  ◌++◌, map, arith, ltb, leb, nat_beq, if◌then◌else◌, length, get_elem?, take, drop, keep, any, All,
  Bool-cases, Option-cases, if_elim, get_or, is_none, PyEq, ◌==◌, same_refl, number_eq, pair_eq,
  List-cases, length-append, length-drop, length-take, take-append-drop, drop-nil, take-nil, elem,
  set_add, All-append, All-drop, drop-drop, drop-append_le,
}
use sniff4hound.Prelude.Text.{Text, text, is_empty, or_else}

-- What `deliver` and `fail` put into a call: the answer's fields that `call` reads. `result` is the
-- JSON text of the result.
pub record Answer : Type 0 where
  pub ok : Bool
  pub result : Text
  pub error : Text
  pub error_type : Text

-- _PendingCall; a generation of none is the -1 of a call that was never sent.
pub record PendingCall : Type 0 where
  pub generation : Option ℕ
  pub message : Option Answer

pub record Client : Type 0 where
  pub sock : Option ℕ
  pub connected : Bool
  pub generation : ℕ
  pub stopped : Bool
  pub auth_failed : Bool
  pub last_connect_failure_at : ℕ
  pub pending : Dict ℕ ℕ
  pub calls : ℕ → PendingCall
  -- The reader threads that were started, by the arguments of `_read_loop`: socket and generation.
  pub readers : Dict ℕ ℕ

-- What the exceptions tell a caller.
pub data Failure : Type 0 where
  rejected : Failure
  closed : Failure
  unreachable : Failure
  timed_out : Failure
  remote_error : Text → Text → Failure
  call_failed : Text → Failure

unfoldable pub init : Client
init = record {
  sock = none;
  connected = false;
  generation = 0;
  stopped = false;
  auth_failed = false;
  last_connect_failure_at = 0;
  pending = [];
  calls = λ call. record { generation = none; message = none };
  readers = [];
}

abbrev pub write_call : ℕ → (PendingCall → PendingCall) → (ℕ → PendingCall) → ℕ → PendingCall
write_call call change calls other =
    if nat_beq other call then change (calls other) else calls other

-- _PendingCall.deliver, and .fail
abbrev pub deliver : Answer → PendingCall → PendingCall
deliver answer call = record { generation = call.generation; message = some answer }

abbrev pub failure : Text → Answer
failure error = record { ok = false; result = []; error = error; error_type = [] }

abbrev pub set_generation : ℕ → PendingCall → PendingCall
set_generation generation call = record { generation = some generation; message = call.message }

abbrev pub set_pending : Dict ℕ ℕ → Client → Client
set_pending pending c = record {
  sock = c.sock;
  connected = c.connected;
  generation = c.generation;
  stopped = c.stopped;
  auth_failed = c.auth_failed;
  last_connect_failure_at = c.last_connect_failure_at;
  pending = pending;
  calls = c.calls;
  readers = c.readers;
}

abbrev pub set_calls : (ℕ → PendingCall) → Client → Client
set_calls calls c = record {
  sock = c.sock;
  connected = c.connected;
  generation = c.generation;
  stopped = c.stopped;
  auth_failed = c.auth_failed;
  last_connect_failure_at = c.last_connect_failure_at;
  pending = c.pending;
  calls = calls;
  readers = c.readers;
}

-- _resolve
abbrev pub deliver_to : Option ℕ → Answer → Client → Client
deliver_to none answer c = c
deliver_to (some call) answer c = set_calls (write_call call (deliver answer) c.calls) c

unfoldable pub resolve : ℕ → Answer → Client → Client
resolve request_id answer c =
    deliver_to (lookup request_id c.pending) answer (set_pending (remove request_id c.pending) c)

-- The keys and the calls that `_fail_all_pending` picks.
abbrev pub rides : ℕ → PendingCall → Bool
rides generation call = elim (call.generation) [ none ↦ false | some g ↦ nat_beq g generation ]

abbrev pub doomed : ℕ → (ℕ → PendingCall) → Dict ℕ ℕ → List ℕ
doomed generation calls pending =
    map (λ e. e.0) (keep (λ e. rides generation (calls (e.1))) pending)

abbrev pub pop_each : List ℕ → Dict ℕ ℕ → Dict ℕ ℕ
pop_each [] pending = pending
pop_each (key ∷ keys) pending = pop_each keys (remove key pending)

abbrev pub onto_found : Option ℕ → List ℕ → List ℕ
onto_found none items = items
onto_found (some call) items = call ∷ items

abbrev pub popped : List ℕ → Dict ℕ ℕ → List ℕ
popped [] pending = []
popped (key ∷ keys) pending = onto_found (lookup key pending) (popped keys (remove key pending))

abbrev pub fail_each : List ℕ → Text → (ℕ → PendingCall) → ℕ → PendingCall
fail_each [] error calls = calls
fail_each (call ∷ rest) error calls =
    fail_each rest error (write_call call (deliver (failure error)) calls)

-- _fail_all_pending
unfoldable pub fail_all_pending : Text → Option ℕ → Client → Client
fail_all_pending error none c =
    set_calls (fail_each (map (λ e. e.1) c.pending) error c.calls) (set_pending [] c)
fail_all_pending error (some generation) c =
    let keys = doomed generation c.calls c.pending in
    set_calls (fail_each (popped keys c.pending) error c.calls)
      (set_pending (pop_each keys c.pending) c)

-- `sock is None or self._sock is sock`
abbrev pub owns : Option ℕ → Option ℕ → Bool
owns none live = true
owns (some sock) none = false
owns (some sock) (some live) = nat_beq live sock

abbrev pub take_down : Client → Client
take_down c = record {
  sock = none;
  connected = false;
  generation = c.generation;
  stopped = c.stopped;
  auth_failed = c.auth_failed;
  last_connect_failure_at = c.last_connect_failure_at;
  pending = c.pending;
  calls = c.calls;
  readers = c.readers;
}

-- _drop_connection
unfoldable pub drop_connection : Option ℕ → Text → Option ℕ → Client → Client
drop_connection sock error generation c =
    fail_all_pending error generation (if owns sock c.sock then take_down c else c)

-- close(): the socket was read before the lock was taken, so it is an argument.
abbrev pub set_stopped : Client → Client
set_stopped c = record {
  sock = c.sock;
  connected = c.connected;
  generation = c.generation;
  stopped = true;
  auth_failed = c.auth_failed;
  last_connect_failure_at = c.last_connect_failure_at;
  pending = c.pending;
  calls = c.calls;
  readers = c.readers;
}

unfoldable pub close_client : Option ℕ → Client → Client
close_client sock c = drop_connection sock (text "IPC client closed") none (set_stopped c)
