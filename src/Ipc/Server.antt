-- ===== src/Ipc/Server.antt =====
-- sniff4hound/ipc.py: `IpcServer`, its handshake, the requests that it dispatches and the events that
-- it publishes. Connections are numbers; the frames that go out, the connections that are torn down and
-- what is logged are part of what a handler gives.
pub mod Sessions
use sniff4hound.Prelude.Text.{Text, text, list_eq, or_blank}
use sniff4hound.Ipc.Frames.{tokens_match}
use sniff4hound.Prelude.{
  ℕ, zero, suc, ◌+◌, ◌-◌, ◌*◌, ◌/◌, ◌%◌, ◌^◌, ◌≤◌, ◌<◌, min, max, ◌≡◌, refl, sym, ap, ◌∙◌, subst,
  ◌≢◌, ◌↔◌, ◌⊎◌, inl, inr, Bool, true, false, not, ◌&&◌, ◌||◌, Option, none, some, List, [], ◌∷◌,
  ◌++◌, map, arith, ltb, leb, nat_beq, if◌then◌else◌, length, get_elem?, take, drop, keep, any, All,
  Bool-cases, Option-cases, if_elim, get_or, is_none, PyEq, ◌==◌, same_refl, number_eq, pair_eq,
  List-cases, length-append, length-drop, length-take, take-append-drop, drop-nil, take-nil, elem,
  set_add, All-append, All-drop, drop-drop, drop-append_le,
}

pub record Server : Type 0 where
  pub token : Text
  pub client_sock : Option ℕ
  pub stopped : Bool

-- What goes out on a connection.
pub data Reply : Type 0 where
  hello_ack : Bool → Reply
  result_of : ℕ → Text → Reply
  error_of : ℕ → Text → Text → Reply
  event : Text → Reply

-- The first frame of a connection: its `kind` and its `token`, when it has one that is a text.
pub record Hello : Type 0 where
  pub kind : Text
  pub token : Option Text

abbrev pub set_client : Option ℕ → Server → Server
set_client client s = record { token = s.token; client_sock = client; stopped = s.stopped }

abbrev pub option_list {ℓ} : {A : Type ℓ} → Option A → List A
option_list none = []
option_list (some a) = a ∷ []

-- How the handshake of `_handle_client` ends: refused, with the connection closed; or the server's
-- client is this one, and the one before it is torn down. An `ack` that cannot be sent ends the session,
-- and so does the TypeError of a token that cannot be compared: `_serve_client` closes the connection. The
-- reply is the one that goes out, if one does.
pub record Greeted : Type 0 where
  pub reply : Option Reply
  pub closed : List ℕ
  pub serves : Bool
  pub server : Server

abbrev pub turned_down : Option Reply → ℕ → Server → Greeted
turned_down reply conn s = record { reply = reply; closed = conn ∷ []; serves = false; server = s }

abbrev pub greet_with : ℕ → Option Bool → Bool → Server → Greeted
greet_with conn none works s = turned_down none conn s
greet_with conn (some false) works s =
    turned_down (if works then some (hello_ack false) else none) conn s
greet_with conn (some true) works s = if not works then turned_down none conn s else record {
  reply = some (hello_ack true);
  closed = option_list s.client_sock;
  serves = true;
  server = set_client (some conn) s;
}

unfoldable pub greet : ℕ → Hello → Bool → Server → Greeted
greet conn hello works s =
    greet_with conn
      (if hello.kind == text "hello" then tokens_match hello.token s.token else some false) works s

-- `if self._client_sock is conn: self._client_sock = None`, at the end of a session and after a
-- publication that failed.
abbrev pub is_client : Option ℕ → ℕ → Bool
is_client none conn = false
is_client (some client) conn = nat_beq client conn

unfoldable pub forget : ℕ → Server → Server
forget conn s = if is_client s.client_sock conn then set_client none s else s

-- stop(): the client is torn down and no longer known.
unfoldable pub stop_server : Server → List ℕ × Server
stop_server s =
    (option_list s.client_sock, record { token = s.token; client_sock = none; stopped = true })

-- publish: to the client there is, if the send works.
abbrev pub publish_to : Option ℕ → Text → Bool → Server → List (ℕ × Reply) × Server
publish_to none payload works s = ([], s)
publish_to (some conn) payload works s =
    if works then ((conn, event payload) ∷ [], s) else ([], forget conn s)

unfoldable pub publish : Text → Bool → Server → List (ℕ × Reply) × Server
publish payload works s = publish_to s.client_sock payload works s

-- A request, with its `timeout_seconds` in milliseconds when that is a finite number of at least 0.
pub record Request : Type 0 where
  pub id : ℕ
  pub method : Option Text
  pub timeout : Option ℕ

-- What a handler does, and whether `_send_frame` raises for a response.
pub data Handled : Type 0 where
  returns : Text → Handled
  raises : Text → Text → Handled

pub data SendResult : Type 0 where
  sends : SendResult
  send_raises : Text → Text → SendResult

-- The handler of a method, or IpcError.
abbrev pub handle : Option Handled → Text → Handled
handle none method = raises (text "IpcError") (text "Unknown IPC method: " ++ method)
handle (some handled) method = handled

-- The frames that `_dispatch` sends. A response that cannot be sent, one that is too large among them,
-- raises as the handler does, and what is raised is the answer then.
abbrev pub answer_error : ℕ → Text → Text → (Reply → SendResult) → List Reply
answer_error id kind error send = elim (send (error_of id error kind)) [
  | sends ↦ error_of id error kind ∷ []
  | _ ↦ []
]

abbrev pub answer_result : ℕ → Text → SendResult → (Reply → SendResult) → List Reply
answer_result id result sends send = result_of id result ∷ []
answer_result id result (send_raises kind error) send = answer_error id kind error send

abbrev pub reply_to : ℕ → Handled → (Reply → SendResult) → List Reply
reply_to id (returns result) send = answer_result id result (send (result_of id result)) send
reply_to id (raises kind error) send = answer_error id kind error send

unfoldable pub dispatch : (Text → Option Handled) → Request → (Reply → SendResult) → List Reply
dispatch methods request send =
    let method = or_blank request.method in
    reply_to request.id (handle (methods method) method) send

-- The threshold of the log: that of the server, or the caller's timeout when that is shorter; and
-- whether the dispatch is noted as slow.
unfoldable pub threshold : ℕ → Request → ℕ
threshold slow request = elim (request.timeout) [ none ↦ slow | some limit ↦ min slow limit ]

unfoldable pub is_slow : ℕ → Request → ℕ → ℕ → Bool
is_slow slow request received_at ended_at =
    not (ltb (ended_at - received_at) (threshold slow request))

-- One connection's session: only what follows a good handshake is dispatched.
pub data Inbound : Type 0 where
  request : Request → Inbound
  unknown : Inbound

-- One round of the loop: what `_stop_event` says when it begins, and the frame that is received then.
pub record Turn : Type 0 where
  pub stopping : Bool
  pub frame : Inbound

abbrev pub with_frame : Inbound → List Request → List Request
with_frame (request r) rest = r ∷ rest
with_frame unknown rest = rest

-- The rounds up to the one that finds the server stopped, or to the end of the connection.
unfoldable pub dispatched : List Turn → List Request
dispatched [] = []
dispatched (turn ∷ turns) =
    let rest = dispatched turns in if turn.stopping then [] else with_frame turn.frame rest

-- `later` is the server as it is when the session ends, after what other threads did.
unfoldable pub session : ℕ → Hello → Bool → List Turn → Server → Server → List Request × Server
session conn hello works turns later s =
    let greeted = greet conn hello works s in
    if greeted.serves then (dispatched turns, forget conn later) else ([], greeted.server)
