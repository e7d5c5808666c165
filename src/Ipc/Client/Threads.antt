-- ===== src/Ipc/Client/Threads.antt =====
-- What holds whatever the threads that share one client do (sniff4hound/ipc.py, `IpcClient`): each
-- relies, where it stands in `call`, only on what the others leave as it is.
use sniff4hound.Prelude.Text.{text}
use sniff4hound.Ipc.Client.{Client, close_client}
use sniff4hound.Ipc.Client.Connect.{Ending, connect, ensure_connected}
use sniff4hound.Ipc.Client.Call.{
  register, unsent, CallPhase, ensuring, registering, sending, waiting, ended, Meeting, reconnect,
  fresh_id, sent, woken, next_attempt, after_ensure, after_register, call_step, Frame, read_frame,
  response, event, other, reader_ends,
}
use sniff4hound.Ipc.Client.Linked.{Linked}
use sniff4hound.Ipc.Client.Link.{
  Reached, initially, after, registers, fails_to_send, resolves, finishes, reader_stops, closes,
  Reached-Linked,
}
use sniff4hound.Ipc.Client.Attempts.{
  EndsIn, Carries, Carries-Attempted, connect-EndsIn, ensure_connected-EndsIn,
}
use sniff4hound.Ipc.Client.Callers.{
  Held, Grows, Held-Grows, same-Grows, drop_connection-Grows, close_client-Grows, unsent-Grows,
  finish-Grows, resolve-Grows, register-Grows, register-Held,
}
use sniff4hound.Prelude.{
  ℕ, ◌≡◌, refl, inl, inr, true, false, Option, none, some, arith, ltb, nat_beq, Bool-cases, if_elim,
  number_eq, pair_eq,
}
use sniff4hound.Ipc.Client.Moves.{
  calls, opens, reads, stops_reading, shuts, begins, moves, Threads, unstarted, set_client, turn,
  left_by, Meets, Move, Run,
}

-- What the thread of a call relies on where it stands.
abbrev pub Relies : ℕ → CallPhase → Client → Type 0
Relies call (sending attempt request_id sock) c = Held call sock c
Relies call phase c = Unit

Relies-Grows :
    (call : ℕ) (phase : CallPhase) (b c : Client)
    → Grows call b c
    → Relies call phase b
    → Relies call phase c
Relies-Grows call (sending attempt request_id sock) b c g h = Held-Grows call sock b c g h
Relies-Grows call (ensuring attempt) b c g h = tt
Relies-Grows call (registering attempt) b c g h = tt
Relies-Grows call (waiting request_id) b c g h = tt
Relies-Grows call (ended call_outcome) b c g h = tt

next_attempt-Relies : (call attempt : ℕ) (c : Client) → Relies call (next_attempt attempt) c
next_attempt-Relies call attempt c =
    if_elim (λ phase. Relies call phase c) (ltb attempt 2) (λ first. tt) (λ last. tt)

-- What the step of one call leaves to itself and to the others.
record Leaves (call : ℕ) (c : Client) (taken : CallPhase × Client) : Type 0 where
  reached : Reached (taken.1)
  grows : (other : ℕ) → nat_beq other call ≡ false → Grows other c (taken.1)
  relies : Relies call (taken.0) (taken.1)

after_ensure-Leaves :
    (call attempt : ℕ) (c : Client) (e : Option Ending)
    → Reached c
    → EndsIn (Carries c) e
    → Leaves call c (after_ensure attempt c e)
after_ensure-Leaves call attempt c none r h = record {
  reached = r;
  grows = λ other differs. same-Grows other c;
  relies = tt;
}
after_ensure-Leaves call attempt c (some (b, none)) r h = record {
  reached = h.reached;
  grows = λ other differs. h.grows other;
  relies = tt;
}
after_ensure-Leaves call attempt c (some (b, some failure)) r h = record {
  reached = h.reached;
  grows = λ other differs. h.grows other;
  relies = tt;
}

after_register-Leaves :
    (call attempt request_id : ℕ) (c : Client) (taken : Option ℕ × Client)
    → Reached (taken.1)
    → ((other : ℕ) → nat_beq other call ≡ false → Grows other c (taken.1))
    → ((sock : ℕ) → taken.0 ≡ some sock → Held call sock (taken.1))
    → Leaves call c (after_register attempt request_id taken)
after_register-Leaves call attempt request_id c (none, b) r g h = record {
  reached = r;
  grows = g;
  relies = next_attempt-Relies call attempt b;
}
after_register-Leaves call attempt request_id c (some sock, b) r g h = record {
  reached = r;
  grows = g;
  relies = h sock refl;
}

call_step-Leaves :
    (call : ℕ) (phase : CallPhase) (meeting : Meeting) (c : Client)
    → Reached c
    → Meets meeting c
    → Relies call phase c
    → Leaves call c (call_step call phase meeting c)
unfolding call_step
call_step-Leaves call (ensuring attempt) (reconnect now before later attempts) c r fresh h =
    after_ensure-Leaves call attempt c (ensure_connected now before later attempts c) r (
      ensure_connected-EndsIn (Carries c) c attempts now before later
        (record { reached = r; grows = λ other. same-Grows other c })
        (Carries-Attempted c attempts r fresh))
call_step-Leaves call (registering attempt) (fresh_id request_id) c r m h =
    after_register-Leaves call attempt request_id c (register call request_id c)
      (after r (registers call request_id))
      (λ other differs. register-Grows other call request_id c differs)
      (λ sock given. register-Held call request_id sock c (Reached-Linked r) given)
call_step-Leaves call (sending attempt request_id sock) (sent true) c r m h = record {
  reached = r;
  grows = λ other differs. same-Grows other c;
  relies = tt;
}
call_step-Leaves call (sending attempt request_id sock) (sent false) c r m h = record {
  reached = after r (fails_to_send call request_id sock h.generation h.known h.riding);
  grows = λ other differs. unsent-Grows other call request_id sock c;
  relies = next_attempt-Relies call attempt (unsent call request_id sock c);
}
call_step-Leaves call (waiting request_id) (woken in_time) c r m h = record {
  reached = after r (finishes call request_id);
  grows = λ other differs. finish-Grows other call request_id c;
  relies = tt;
}
call_step-Leaves call phase meeting c r m h = record {
  reached = r;
  grows = λ other differs. same-Grows other c;
  relies = h;
}

-- The threads and the client together.
pub record Coherent (t : Threads) : Type 0 where
  pub reached : Reached t.client
  pub linked : Linked t.client
  pub relied : (call : ℕ) → Relies call (t.phases call) t.client

coherent : (t : Threads) (c : Client) → Coherent t → Carries t.client c → Coherent (set_client c t)
coherent t c h carried = record {
  reached = carried.reached;
  linked = Reached-Linked carried.reached;
  relied =
      λ call. Relies-Grows call (t.phases call) t.client c (carried.grows call) (h.relied call);
}

turn-Coherent :
    (t : Threads) (call : ℕ) (taken : CallPhase × Client)
    → Coherent t
    → Leaves call t.client taken
    → Coherent (turn call taken t)
unfolding turn
turn-Coherent t call taken h left = record {
  reached = left.reached;
  linked = Reached-Linked left.reached;
  relied = λ other. elim (Bool-cases (nat_beq other call)) [
    | inl same ↦ let e : other ≡ call = ground arith in rw (same, e) left.relies
    | inr differs ↦ rw differs (
        Relies-Grows other (t.phases other) t.client (taken.1) (left.grows other differs)
          (h.relied other))
  ];
}

read_frame-Carries : (frame : Frame) (c : Client) → Reached c → Carries c (read_frame frame c)
unfolding read_frame
read_frame-Carries (response request_id answer) c r = record {
  reached = after r (resolves request_id answer);
  grows = λ call. resolve-Grows call request_id answer c;
}
read_frame-Carries event c r = record { reached = r; grows = λ call. same-Grows call c }
read_frame-Carries other c r = record { reached = r; grows = λ call. same-Grows call c }

left_by-Coherent :
    (t : Threads) (e : Option Ending)
    → Coherent t
    → EndsIn (Carries t.client) e
    → Coherent (left_by e t)
left_by-Coherent t none h carried = h
left_by-Coherent t (some ending) h carried = coherent t (ending.0) h carried

Move-Coherent : {t u : Threads} → Move t u → Coherent t → Coherent u
unfolding reader_ends
Move-Coherent {t} (calls call meeting fresh) h =
    turn-Coherent t call (call_step call (t.phases call) meeting t.client) h
      (call_step-Leaves call (t.phases call) meeting t.client h.reached fresh (h.relied call))
Move-Coherent {t} (opens budget now attempts fresh) h =
    left_by-Coherent t (connect budget now attempts t.client) h (
      connect-EndsIn (Carries t.client) t.client attempts budget now
        (record { reached = h.reached; grows = λ call. same-Grows call t.client })
        (Carries-Attempted t.client attempts h.reached fresh))
Move-Coherent {t} (reads frame) h =
    coherent t (read_frame frame t.client) h (read_frame-Carries frame t.client h.reached)
Move-Coherent {t} (stops_reading sock generation known) h =
    coherent t (reader_ends sock generation t.client) h (record {
      reached = after h.reached (reader_stops sock generation (text "IPC connection lost") known);
      grows = λ call.
          drop_connection-Grows call (some sock) (text "IPC connection lost") (some generation)
            t.client;
    })
Move-Coherent {t} (shuts sock) h = coherent t (close_client sock t.client) h (record {
  reached = after h.reached (closes sock);
  grows = λ call. close_client-Grows call sock t.client;
})

unstarted-Coherent : Coherent unstarted
unfolding unstarted
unstarted-Coherent = record {
  reached = initially;
  linked = Reached-Linked initially;
  relied = λ call. tt;
}

-- However the threads interleave: every waiting call rides the connection that is up, none waits while
-- the link is down, and a thread about to send holds a socket whose reader has the generation that its
-- call rides.
pub Run-Coherent : {t : Threads} → Run t → Coherent t
Run-Coherent begins = unstarted-Coherent
Run-Coherent (moves r m) = Move-Coherent m (Run-Coherent r)
