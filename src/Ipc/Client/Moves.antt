-- ===== src/Ipc/Client/Moves.antt =====
-- The threads that share one client (sniff4hound/ipc.py, `IpcClient`): any number that make calls, each
-- at its own place in `call`, others that call `connect` or `close`, and the readers of the connections.
use sniff4hound.Prelude.Dict.{lookup}
use sniff4hound.Ipc.Client.{Client, init, close_client}
use sniff4hound.Ipc.Client.Connect.{Attempt, Ending, connect}
use sniff4hound.Ipc.Client.Call.{
  CallPhase, ensuring, Meeting, reconnect, call_step, Frame, read_frame, reader_ends,
}
use sniff4hound.Ipc.Client.Attempts.{Fresh}
use sniff4hound.Prelude.{ℕ, ◌≡◌, Option, none, some, nat_beq, if◌then◌else◌, number_eq, pair_eq}

pub record Threads : Type 0 where
  pub client : Client
  pub phases : ℕ → CallPhase

-- Every call is still before its first attempt.
unfoldable pub unstarted : Threads
unstarted = record { client = init; phases = λ call. ensuring 1 }

abbrev pub set_client : Client → Threads → Threads
set_client c t = record { client = c; phases = t.phases }

-- The thread of one call has taken a step.
unfoldable pub turn : ℕ → CallPhase × Client → Threads → Threads
turn call taken t = record {
  client = taken.1;
  phases = λ other. if nat_beq other call then taken.0 else t.phases other;
}

abbrev pub left_by : Option Ending → Threads → Threads
left_by none t = t
left_by (some ending) t = set_client (ending.0) t

-- The sockets that a step opens are new.
abbrev pub Meets : Meeting → Client → Type 0
Meets (reconnect now before later attempts) c = Fresh attempts c
Meets meeting c = Unit

-- One step of some thread.
pub data Move : Threads → Threads → Type 0 where
  calls :
      {t : Threads} (call : ℕ) (meeting : Meeting)
      → Meets meeting t.client
      → Move t (turn call (call_step call (t.phases call) meeting t.client) t)
  opens :
      {t : Threads} (budget now : ℕ) (attempts : ℕ → Attempt)
      → Fresh attempts t.client
      → Move t (left_by (connect budget now attempts t.client) t)
  reads : {t : Threads} (frame : Frame) → Move t (set_client (read_frame frame t.client) t)
  stops_reading :
      {t : Threads} (sock generation : ℕ)
      → lookup sock t.client.readers ≡ some generation
      → Move t (set_client (reader_ends sock generation t.client) t)
  shuts : {t : Threads} (sock : Option ℕ) → Move t (set_client (close_client sock t.client) t)

pub data Run : Threads → Type 0 where
  begins : Run unstarted
  moves : {t u : Threads} → Run t → Move t u → Run u
