-- ===== src/Ipc/Client/Connect.antt =====
-- sniff4hound/ipc.py: `IpcClient.connect`, `_ensure_connected` and `_check_reconnect`, and how long
-- `connect` can take. What the capture process answers, the clock and `_stop_event` come from outside:
-- they are the arguments.
use sniff4hound.Prelude.Dict.{insert}
use sniff4hound.Ipc.Client.{Client, Failure, rejected, closed, unreachable}
use sniff4hound.Prelude.{
  ℕ, zero, suc, ◌+◌, ◌-◌, ◌*◌, ◌/◌, ◌≤◌, ◌≡◌, refl, subst, Bool, true, false, not, ◌&&◌, Option,
  none, some, arith, ltb, leb, nat_beq, if◌then◌else◌, if_elim, number_eq, pair_eq,
}

-- What becomes of one socket: an `ack` that is ok, one that is not, an OSError, or an exception that
-- `connect` does not catch, as the IpcDisconnected of a peer that closes before its `ack`.
pub data Handshake : Type 0 where
  accepted : ℕ → Handshake
  refused : Handshake
  failed : Handshake
  breaks_off : Handshake

-- One round of the loop: `_stop_event` when it begins, the handshake, and the clock after it.
pub record Attempt : Type 0 where
  pub stopping : Bool
  pub handshake : Handshake
  pub clock : ℕ

-- The successful branch: the socket, its generation and its reader.
unfoldable pub install : ℕ → Client → Client
install sock c = record {
  sock = some sock;
  connected = true;
  generation = suc c.generation;
  stopped = c.stopped;
  auth_failed = c.auth_failed;
  last_connect_failure_at = 0;
  pending = c.pending;
  calls = c.calls;
  readers = insert sock (suc c.generation) c.readers;
}

unfoldable pub latch_auth_failure : Client → Client
latch_auth_failure c = record {
  sock = c.sock;
  connected = c.connected;
  generation = c.generation;
  stopped = c.stopped;
  auth_failed = true;
  last_connect_failure_at = c.last_connect_failure_at;
  pending = c.pending;
  calls = c.calls;
  readers = c.readers;
}

unfoldable pub note_failure : ℕ → Client → Client
note_failure now c = record {
  sock = c.sock;
  connected = c.connected;
  generation = c.generation;
  stopped = c.stopped;
  auth_failed = c.auth_failed;
  last_connect_failure_at = now;
  pending = c.pending;
  calls = c.calls;
  readers = c.readers;
}

-- The client afterwards and the exception that was raised, if one was.
abbrev pub Ending : Type 0
Ending = Client × Option Failure

abbrev pub raise : Failure → Client → Option Ending
raise raised c = some (c, some raised)

abbrev pub after_handshake : Handshake → Client → Option Ending → Option Ending
after_handshake (accepted sock) c retry = some (install sock c, none)
after_handshake refused c retry = raise rejected (latch_auth_failure c)
after_handshake failed c retry = retry
after_handshake breaks_off c retry = raise closed c

-- The loop, a round for a unit of fuel; none is that the fuel is spent. The clock that is read when
-- the loop is left shows the time of the read before it.
unfoldable pub connect_loop : ℕ → ℕ → ℕ → (ℕ → Attempt) → ℕ → Client → Option Ending
connect_loop zero deadline now attempts k c = none
connect_loop (suc fuel) deadline now attempts k c =
    let after = (attempts k).clock in
    let again = connect_loop fuel deadline after attempts (suc k) c in
    let retry = if leb deadline after then raise unreachable (note_failure after c) else again in
    if (attempts k).stopping
    then raise unreachable (note_failure now c)
    else after_handshake ((attempts k).handshake) c retry

-- `time.sleep(0.25)`, in milliseconds; a budget has room for this many rounds.
abbrev pub retry_sleep : ℕ
retry_sleep = 250

abbrev pub rounds : ℕ → ℕ
rounds budget = budget / retry_sleep + 2

-- connect(timeout=budget) at the time `now`.
unfoldable pub connect : ℕ → ℕ → (ℕ → Attempt) → Client → Option Ending
connect budget now attempts c =
    let attempted = connect_loop (rounds budget) (now + budget) now attempts 0 c in
    if c.connected then some (c, none) else if c.auth_failed then raise rejected c else attempted

-- RECONNECT_COOLDOWN_SECONDS and RECONNECT_TIMEOUT_SECONDS
abbrev pub reconnect_cooldown : ℕ
reconnect_cooldown = 1000

abbrev pub reconnect_timeout : ℕ
reconnect_timeout = 5000

-- _check_reconnect
unfoldable pub check_reconnect : ℕ → Client → Option Failure
check_reconnect now c =
    let failed_at = c.last_connect_failure_at in
    if c.connected
    then none
    else if c.stopped
    then some closed
    else if c.auth_failed
    then some rejected
    else if not (nat_beq failed_at 0) && ltb (now - failed_at) reconnect_cooldown
    then some closed
    else none

-- _ensure_connected: the check before the lock at one time, and that under it at a later one, when
-- other threads may have changed the client.
abbrev pub after_check : Option Failure → Client → Option Ending → Option Ending
after_check (some raised) c going_on = raise raised c
after_check none c going_on = going_on

unfoldable pub connect_locked : ℕ → (ℕ → Attempt) → Client → Option Ending
connect_locked now attempts c =
    after_check (check_reconnect now c) c
      (if c.connected then some (c, none) else connect reconnect_timeout now attempts c)

unfoldable pub ensure_connected : ℕ → Client → ℕ → (ℕ → Attempt) → Client → Option Ending
ensure_connected now before later attempts c =
    let locked = after_check (check_reconnect now before) c (connect_locked later attempts c) in
    if before.connected then some (c, none) else locked

-- How a `connect` ends: with the link up and nothing raised, or with an exception.
pub data Ended : Option Ending → Type 0 where
  is_up : {c : Client} → c.connected ≡ true → Ended (some (c, none))
  has_raised : {c : Client} {raised : Failure} → Ended (some (c, some raised))

-- Each round ends at least a quarter of a second after the one before.
abbrev pub Ticking : ℕ → (ℕ → Attempt) → Type 0
Ticking now attempts =
    (now ≤ (attempts 0).clock)
    × ((k : ℕ) → (attempts k).clock + retry_sleep ≤ (attempts (suc k)).clock)

after_handshake-Ended :
    (handshake : Handshake) (c : Client) (retry : Option Ending)
    → Ended retry
    → Ended (after_handshake handshake c retry)
unfolding install
after_handshake-Ended (accepted sock) c retry h = is_up {c = install sock c} refl
after_handshake-Ended refused c retry h = has_raised
after_handshake-Ended failed c retry h = h
after_handshake-Ended breaks_off c retry h = has_raised

round-Ended :
    (fuel deadline now : ℕ) (attempts : ℕ → Attempt) (k : ℕ) (c : Client)
    → (leb deadline ((attempts k).clock) ≡ false
        → Ended (connect_loop fuel deadline ((attempts k).clock) attempts (suc k) c))
    → Ended (connect_loop (suc fuel) deadline now attempts k c)
unfolding connect_loop
round-Ended fuel deadline now attempts k c going_on =
    let after = (attempts k).clock in
    let again = connect_loop fuel deadline after attempts (suc k) c in
    if_elim Ended ((attempts k).stopping) (λ stopping. has_raised)
      (λ going.
        after_handshake-Ended ((attempts k).handshake) c
          (if leb deadline after then raise unreachable (note_failure after c) else again)
          (if_elim Ended (leb deadline after) (λ over. has_raised) going_on))

connect_loop-Ended :
    (fuel deadline now : ℕ) (attempts : ℕ → Attempt) (k : ℕ) (c : Client)
    → ((j : ℕ) → (attempts j).clock + retry_sleep ≤ (attempts (suc j)).clock)
    → deadline ≤ (attempts k).clock + fuel * retry_sleep
    → Ended (connect_loop (suc fuel) deadline now attempts k c)
connect_loop-Ended zero deadline now attempts k c ticks enough =
    round-Ended zero deadline now attempts k c (λ early. absurd (ground arith))
connect_loop-Ended (suc fuel) deadline now attempts k c ticks enough =
    round-Ended (suc fuel) deadline now attempts k c (λ early.
      connect_loop-Ended fuel deadline ((attempts k).clock) attempts (suc k) c ticks
        (omega (arith, ticks k)))

-- The link comes up, or an exception says that it did not: within its budget and two rounds more,
-- `connect` ends.
pub connect-Ended :
    (budget now : ℕ) (attempts : ℕ → Attempt) (c : Client)
    → Ticking now attempts
    → Ended (connect budget now attempts c)
unfolding connect
connect-Ended budget now attempts c ticks =
    let fuel = budget / retry_sleep + 1 in
    let attempted = connect_loop (rounds budget) (now + budget) now attempts 0 c in
    if_elim Ended c.connected (λ up. is_up up)
      (λ down.
        if_elim Ended c.auth_failed (λ latched. has_raised)
          (λ unlatched.
            subst (λ f. Ended (connect_loop f (now + budget) now attempts 0 c)) (omega arith)
              (connect_loop-Ended fuel (now + budget) now attempts 0 c ticks.1
                (omega (arith, ticks.0)))))
