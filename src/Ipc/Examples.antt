-- ===== src/Ipc/Examples.antt =====
-- Runs of the link (sniff4hound/ipc.py) at concrete inputs.
use sniff4hound.Prelude.Dict.{lookup, insert, remove}
use sniff4hound.Prelude.Text.{text, list_eq}
use sniff4hound.Ipc.Frames.{tokens_match, Bytes, Stream, Json, pack, send_frame}
use sniff4hound.Ipc.Receive.{bytes_of, Open}
use sniff4hound.Ipc.RoundTrip.{send_all, recv_all, recv_all-send_all}
use sniff4hound.Ipc.Client.{Client, init, call_failed, drop_connection, fail_all_pending}
use sniff4hound.Ipc.Client.Connect.{
  install, Attempt, Handshake, accepted, failed, connect_loop, connect, connect-Ended, Ended,
  ensure_connected, check_reconnect, connect_locked,
}
use sniff4hound.Ipc.Client.Call.{
  register, call_step, reader_ends, ensuring, waiting, ended, reconnect, fresh_id, sent, woken,
  call_outcome, raised, unsent, Meeting,
}
use sniff4hound.Ipc.Client.Attempts.{Fresh}
use sniff4hound.Ipc.Client.Moves.{
  Threads, unstarted, set_client, turn, Run, begins, moves, calls, stops_reading,
}
use sniff4hound.Ipc.Client.Threads.{Coherent, Run-Coherent}
use sniff4hound.Ipc.Client.Link.{Reached, initially, after, connects, registers, reader_stops}
use sniff4hound.Ipc.Client.Drop.{reader_ends-Scope, Scope}
use sniff4hound.Ipc.Client.Once.{call_step-sent_once, total, tries, works, Steps}
use sniff4hound.Ipc.Server.{
  Server, Hello, Request, Turn, request, greet, dispatched, forget, session,
}
use sniff4hound.Ipc.Server.Sessions.{session-Admission, Admission}
use sniff4hound.Prelude.{
  ℕ, List, ◌*◌, ◌≤◌, ◌≡◌, refl, ap, subst, true, false, none, some, [], ◌∷◌, arith, number_eq,
  pair_eq,
}

-- Messages that are texts of their own bytes.
abbrev plain : Json Bytes
plain = record { dumps = λ m. m; loads = λ b. some b; loads-dumps = λ m. refl }

abbrev two_frames : Bytes
two_frames = 0 ∷ 0 ∷ 0 ∷ 2 ∷ 104 ∷ 105 ∷ 0 ∷ 0 ∷ 0 ∷ 0 ∷ []

-- The socket gives the two frames in three pieces, with a byte of the next frame behind them.
abbrev pieces : Stream
pieces = (0 ∷ 0 ∷ []) ∷ (0 ∷ 2 ∷ 104 ∷ []) ∷ (105 ∷ 0 ∷ 0 ∷ 0 ∷ 0 ∷ 7 ∷ []) ∷ []

recv_all-send_all_example :
    (next : Stream) × ((recv_all plain 2 pieces ≡ some ((104 ∷ 105 ∷ []) ∷ [] ∷ [], next))
      × (Open next × (bytes_of next ≡ 7 ∷ [])))
recv_all-send_all_example =
    recv_all-send_all plain ((104 ∷ 105 ∷ []) ∷ [] ∷ []) two_frames (7 ∷ []) pieces
      (unfold send_all send_frame pack in refl) (refl, (refl, (refl, tt))) refl

-- A capture process that is not there: each attempt fails, a quarter of a second after the other.
abbrev down : ℕ → Attempt
down k = record { stopping = false; handshake = failed; clock = k * 250 }

connect-Ended_example : Ended (connect 1000 0 down init)
connect-Ended_example = connect-Ended 1000 0 down init (omega arith, λ k. omega arith)

-- Connection 7, with call 1 on it, is lost; connection 8 replaces it and takes call 2.
abbrev first_link : Client
first_link = (register 1 10 (install 7 init)).1

first_link-Reached : Reached first_link
unfolding init lookup
first_link-Reached = after (after initially (connects 7 refl refl)) (registers 1 10)

abbrev second_link : Client
second_link = (register 2 11 (install 8 (reader_ends 7 1 first_link))).1

second_link-Reached : Reached second_link
unfolding reader_ends register install init lookup insert remove drop_connection fail_all_pending
second_link-Reached =
    after
      (after (after first_link-Reached (reader_stops 7 1 (text "IPC connection lost") refl))
        (connects 8 refl refl))
      (registers 2 11)

-- A capture process that accepts each attempt, on a socket of this name.
abbrev up : ℕ → ℕ → Attempt
up sock k = record { stopping = false; handshake = accepted sock; clock = k * 250 }

up-Fresh : (sock : ℕ) (c : Client) → lookup sock c.readers ≡ none → Fresh (up sock) c
up-Fresh sock c h k other same =
    let e : sock ≡ other = accepted_injective same in subst (λ s. lookup s c.readers ≡ none) e h
  where
    number : Handshake → ℕ
    number (accepted sock) = sock
    number h = 0

    accepted_injective : {a b : ℕ} → accepted a ≡ accepted b → a ≡ b
    accepted_injective h = ap number h

abbrev step : ℕ → Meeting → Threads → Threads
step call meeting t = turn call (call_step call (t.phases call) meeting t.client) t

-- Two calls register on connection 7, which is then lost; the first cannot send and reconnects.
abbrev opened : Threads
opened = step 1 (reconnect 0 init 0 (up 7)) unstarted

abbrev registered : Threads
registered =
    step 2 (fresh_id 11) (step 2 (reconnect 5 first_link 5 down) (step 1 (fresh_id 10) opened))

abbrev lost : Threads
lost = set_client (reader_ends 7 1 registered.client) registered

abbrev reopened : Threads
reopened = step 1 (reconnect 9 init 9 (up 8)) (step 1 (sent false) lost)

reopened-Run : Run reopened
unfolding unstarted turn call_step ensure_connected check_reconnect connect_locked reader_ends
    register install init lookup insert remove drop_connection fail_all_pending unsent connect
    connect_loop
reopened-Run =
    moves
      (moves
        (moves
          (moves
            (moves
              (moves (moves begins (calls 1 (reconnect 0 init 0 (up 7)) (up-Fresh 7 init refl)))
                (calls 1 (fresh_id 10) tt))
              (calls 2 (reconnect 5 first_link 5 down) (λ k sock h. absurd (cc h))))
            (calls 2 (fresh_id 11) tt))
          (stops_reading 7 1 refl))
        (calls 1 (sent false) tt))
      (calls 1 (reconnect 9 init 9 (up 8)) (up-Fresh 8 (step 1 (sent false) lost).client refl))

Run-Coherent_example : Coherent reopened
Run-Coherent_example = Run-Coherent reopened-Run

reader_ends-Scope_example : Scope 7 8 second_link (reader_ends 7 1 second_link)
unfolding reader_ends register install init lookup insert remove drop_connection fail_all_pending
reader_ends-Scope_example = reader_ends-Scope second_link 7 8 1 second_link-Reached refl refl

-- Both sends, the first of which fails, with another thread's reconnect between them.
abbrev one_run : Steps
one_run =
    (reconnect 0 first_link 0 down, first_link)
    ∷ (fresh_id 10, first_link)
    ∷ (sent false, first_link)
    ∷ (reconnect 5 second_link 6 down, second_link)
    ∷ (fresh_id 12, second_link)
    ∷ (sent true, second_link)
    ∷ (woken true, second_link)
    ∷ []

call_step-sent_once_example :
    (total tries 1 (ensuring 1) one_run ≤ 2) × (total works 1 (ensuring 1) one_run ≤ 1)
call_step-sent_once_example = call_step-sent_once 1 one_run

both_sends : (total tries 1 (ensuring 1) one_run ≡ 2) × (total works 1 (ensuring 1) one_run ≡ 1)
unfolding call_step ensure_connected check_reconnect connect_locked reader_ends register install
    init lookup insert remove drop_connection fail_all_pending unsent
both_sends = (refl, refl)

abbrev server : Server
server = record { token = text "secret"; client_sock = some 4; stopped = false }

abbrev web : Hello
web = record { kind = text "hello"; token = some (text "secret") }

abbrev asking : ℕ → Request
asking id = record { id = id; method = some (text "status"); timeout = none }

-- The server is stopped between the first request and the second.
abbrev turns : List Turn
turns =
    record { stopping = false; frame = request (asking 1) }
    ∷ record { stopping = true; frame = request (asking 2) }
    ∷ []

abbrev at_end : Server
at_end = record { token = text "secret"; client_sock = none; stopped = true }

session-Admission_example : Admission 5 web true turns at_end server
session-Admission_example = session-Admission 5 web true turns at_end server

one_request : session 5 web true turns at_end server ≡ (asking 1 ∷ [], at_end)
unfolding session greet tokens_match dispatched forget
one_request = refl

-- A token that is not ASCII gets no reply.
no_reply :
    (greet 5 (record { kind = text "hello"; token = some (233 ∷ []) }) true server).reply ≡ none
unfolding greet tokens_match
no_reply = refl

-- A call whose first send fails after the reader has already told it that the link was lost: it is sent
-- again, on the new connection, and then ends at once with the old failure.
abbrev told_early : Client
told_early = reader_ends 7 1 first_link

abbrev resent : Client
resent = (register 1 12 (install 8 told_early)).1

late_failure :
    (call_step 1 (waiting 12) (woken true) resent).0
    ≡ ended (raised (call_failed (text "IPC connection lost")))
unfolding call_step call_outcome reader_ends register install init lookup insert remove
    drop_connection fail_all_pending
late_failure = refl
