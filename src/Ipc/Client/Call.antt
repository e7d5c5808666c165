-- ===== src/Ipc/Client/Call.antt =====
-- sniff4hound/ipc.py: `IpcClient.call`, step by step, as one thread runs it while others change the
-- client between its steps, and the reader thread of `_read_loop`.
use sniff4hound.Prelude.Dict.{lookup, insert, remove}
use sniff4hound.Prelude.Text.{Text, text, is_empty, or_else}
use sniff4hound.Ipc.Client.{
  Client, Answer, Failure, closed, timed_out, remote_error, call_failed, set_pending, set_calls,
  write_call, set_generation, drop_connection, resolve,
}
use sniff4hound.Ipc.Client.Connect.{Attempt, Ending, ensure_connected}
use sniff4hound.Prelude.{
  ℕ, suc, Bool, true, false, Option, none, some, ltb, nat_beq, if◌then◌else◌, is_none, number_eq,
  pair_eq,
}

-- The block under `_connect_lock`: the call rides the live connection and waits under its request's
-- id. It gives the socket, or none for the `continue`.
abbrev pub enlist : ℕ → ℕ → Client → Client
enlist call request_id c =
    set_pending (insert request_id call c.pending)
      (set_calls (write_call call (set_generation c.generation) c.calls) c)

unfoldable pub register : ℕ → ℕ → Client → Option ℕ × Client
register call request_id c =
    let live = if c.connected then c.sock else none in
    (live, if is_none live then c else enlist call request_id c)

-- The `except` of a send that failed.
unfoldable pub unsent : ℕ → ℕ → ℕ → Client → Client
unsent call request_id sock c =
    drop_connection (some sock) (text "IPC connection lost") ((c.calls call).generation)
      (set_pending (remove request_id c.pending) c)

-- The `finally` of the wait.
abbrev pub holds_call : Option ℕ → ℕ → Bool
holds_call none call = false
holds_call (some other) call = nat_beq other call

unfoldable pub finish : ℕ → ℕ → Client → Client
finish call request_id c =
    if holds_call (lookup request_id c.pending) call
    then set_pending (remove request_id c.pending) c
    else c

-- What `call` makes of the answer that its event brought; none is a wait that timed out.
pub data Outcome : Type 0 where
  returned : Text → Outcome
  raised : Failure → Outcome

unfoldable pub call_outcome : Option Answer → Outcome
call_outcome none = raised timed_out
call_outcome (some answer) =
    let error = or_else answer.error (text "IPC call failed") in
    if answer.ok
    then returned answer.result
    else if is_empty answer.error_type
    then raised (call_failed error)
    else raised (remote_error error answer.error_type)

-- Where a thread stands in `call`: before `_ensure_connected` of an attempt, before the block under
-- the lock, before the send, in the wait, and at the end.
pub data CallPhase : Type 0 where
  ensuring : ℕ → CallPhase
  registering : ℕ → CallPhase
  sending : ℕ → ℕ → ℕ → CallPhase
  waiting : ℕ → CallPhase
  ended : Outcome → CallPhase

-- The next attempt, or the exception of the loop's `else`, or of the second send.
abbrev pub next_attempt : ℕ → CallPhase
next_attempt attempt = if ltb attempt 2 then ensuring (suc attempt) else ended (raised closed)

-- What one step of the thread meets: the clocks and the handshakes of a reconnect, a fresh id, whether
-- the send worked, and whether the event was set before the timeout.
pub data Meeting : Type 0 where
  reconnect : ℕ → Client → ℕ → (ℕ → Attempt) → Meeting
  fresh_id : ℕ → Meeting
  sent : Bool → Meeting
  woken : Bool → Meeting

abbrev pub after_ensure : ℕ → Client → Option Ending → CallPhase × Client
after_ensure attempt c none = (ensuring attempt, c)
after_ensure attempt c (some (after, none)) = (registering attempt, after)
after_ensure attempt c (some (after, some failure)) = (ended (raised failure), after)

abbrev pub after_register : ℕ → ℕ → Option ℕ × Client → CallPhase × Client
after_register attempt request_id (none, c) = (next_attempt attempt, c)
after_register attempt request_id (some sock, c) = (sending attempt request_id sock, c)

-- One step of the thread that makes the call `call`. A meeting that does not belong to the phase
-- changes nothing.
unfoldable pub call_step : ℕ → CallPhase → Meeting → Client → CallPhase × Client
call_step call (ensuring attempt) (reconnect now before later attempts) c =
    after_ensure attempt c (ensure_connected now before later attempts c)
call_step call (registering attempt) (fresh_id request_id) c =
    after_register attempt request_id (register call request_id c)
call_step call (sending attempt request_id sock) (sent true) c = (waiting request_id, c)
call_step call (sending attempt request_id sock) (sent false) c =
    (next_attempt attempt, unsent call request_id sock c)
call_step call (waiting request_id) (woken in_time) c = (
  ended (call_outcome (if in_time then (c.calls call).message else none)),
  finish call request_id c,
)
call_step call phase meeting c = (phase, c)

-- _read_loop: what the reader of one socket meets, up to the frame that ends it. An event goes to
-- `on_event` and leaves the client as it is.
pub data Frame : Type 0 where
  response : ℕ → Answer → Frame
  event : Frame
  other : Frame

unfoldable pub read_frame : Frame → Client → Client
read_frame (response request_id answer) c = resolve request_id answer c
read_frame event c = c
read_frame other c = c

unfoldable pub reader_ends : ℕ → ℕ → Client → Client
reader_ends sock generation =
    drop_connection (some sock) (text "IPC connection lost") (some generation)
