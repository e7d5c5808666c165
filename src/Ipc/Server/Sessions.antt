-- ===== src/Ipc/Server/Sessions.antt =====
-- Who gets to ask (sniff4hound/ipc.py, `_handle_client`), and that each request is answered
-- (`_dispatch`).
use sniff4hound.Prelude.Text.{Text, text, list_eq, list_beq_iff, or_blank, is_ascii}
use sniff4hound.Ipc.Frames.{tokens_match}
use sniff4hound.Ipc.Server.{
  Server, Hello, Reply, hello_ack, result_of, error_of, Request, Handled, returns, raises,
  SendResult, sends, send_raises, handle, reply_to, answer_result, answer_error, dispatch, greet,
  forget, session, Turn, with_frame, greet_with, turned_down, dispatched, is_client, option_list,
  set_client,
}
use sniff4hound.Prelude.{
  ℕ, ◌≡◌, refl, sym, ap, ◌∙◌, ◌≢◌, ◌⊎◌, inl, inr, Bool, true, false, Option, none, some, List, [],
  ◌∷◌, ◌++◌, arith, nat_beq, Bool-cases, ◌==◌, All, if_elim, if◌then◌else◌, ◌&&◌, same_refl,
  number_eq, pair_eq,
}

-- The requests among the frames of all the rounds.
abbrev pub requests : List Turn → List Request
requests [] = []
requests (turn ∷ turns) = with_frame turn.frame (requests turns)

-- The rounds end here: with the connection, or because the server is stopped.
abbrev pub Stops : List Turn → Type 0
Stops [] = Unit
Stops (turn ∷ turns) = turn.stopping ≡ true

-- What a session dispatches: the requests of the rounds before the first that finds the server stopped.
pub record Served (turns : List Turn) (asked : List Request) : Type 0 where
  pub taken : List Turn
  pub rest : List Turn
  pub parts : turns ≡ taken ++ rest
  pub running : All (λ turn. turn.stopping ≡ false) taken
  pub stops : Stops rest
  pub exactly : asked ≡ requests taken

-- The ways a connection can begin, and what comes of each.
pub data Admission (conn : ℕ) (hello : Hello) (works : Bool) (turns : List Turn) (later s : Server)
    : Type 0 where
  admitted :
      works ≡ true
      → hello.kind ≡ text "hello"
      → hello.token ≡ some s.token
      → s.token ≢ []
      → (greet conn hello works s).reply ≡ some (hello_ack true)
      → (greet conn hello works s).closed ≡ option_list s.client_sock
      → (greet conn hello works s).server ≡ set_client (some conn) s
      → Served turns ((session conn hello works turns later s).0)
      → (session conn hello works turns later s).1.client_sock ≢ some conn
      → Admission conn hello works turns later s
  broken_off :
      works ≡ false
      → (greet conn hello works s).reply ≡ none
      → (greet conn hello works s).closed ≡ conn ∷ []
      → session conn hello works turns later s ≡ ([], s)
      → Admission conn hello works turns later s
  turned_away :
      (hello.kind ≢ text "hello") ⊎ (tokens_match hello.token s.token ≡ some false)
      → works ≡ true
      → (greet conn hello works s).reply ≡ some (hello_ack false)
      → (greet conn hello works s).closed ≡ conn ∷ []
      → session conn hello works turns later s ≡ ([], s)
      → Admission conn hello works turns later s
  not_comparable :
      (candidate : Text)
      → hello.token ≡ some candidate
      → (is_ascii candidate && is_ascii s.token) ≡ false
      → (greet conn hello works s).reply ≡ none
      → (greet conn hello works s).closed ≡ conn ∷ []
      → session conn hello works turns later s ≡ ([], s)
      → Admission conn hello works turns later s

dispatched-Served : (turns : List Turn) → Served turns (dispatched turns)
unfolding dispatched
dispatched-Served [] = record {
  taken = [];
  rest = [];
  parts = refl;
  running = tt;
  stops = tt;
  exactly = refl;
}
dispatched-Served (turn ∷ turns) =
    let after = dispatched-Served turns in
    if_elim {x = []} {y = with_frame turn.frame (dispatched turns)} (Served (turn ∷ turns))
      turn.stopping
      (λ stopping. record {
        taken = [];
        rest = turn ∷ turns;
        parts = refl;
        running = tt;
        stops = stopping;
        exactly = refl;
      })
      (λ running. record {
        taken = turn ∷ after.taken;
        rest = after.rest;
        parts = ap (turn ∷◌) after.parts;
        running = (running, after.running);
        stops = after.stops;
        exactly = ap (with_frame turn.frame) after.exactly;
      })

forget-gone : (conn : ℕ) (s : Server) → (forget conn s).client_sock ≢ some conn
unfolding forget
forget-gone conn s = go s.client_sock refl
  where
    go :
        (client : Option ℕ)
        → s.client_sock ≡ client
        → (if is_client client conn then set_client none s else s).client_sock ≢ some conn
    go none same = λ h. cc (same, h)
    go (some other) same = elim (Bool-cases (nat_beq other conn)) [
      | inl is ↦ rw is (λ h. cc h)
      | inr is_not ↦ rw is_not (λ h.
          let e : other ≡ conn = some_number (sym same ∙ h) in
          absurd (cc (sym is_not ∙ ap (λ n. nat_beq n conn) e ∙ same_refl conn)))
    ]
      where
        some_number : {a b : ℕ} → some a ≡ some b → a ≡ b
        some_number h = cc

-- What the comparison of the tokens says of them.
pub data Compared (candidate : Option Text) (expected : Text) : Option Bool → Type 0 where
  is_same : candidate ≡ some expected → expected ≢ [] → Compared candidate expected (some true)
  differs : Compared candidate expected (some false)
  raises_error :
      (given : Text)
      → candidate ≡ some given
      → (is_ascii given && is_ascii expected) ≡ false
      → Compared candidate expected none

tokens_match-Compared :
    (candidate : Option Text) (expected : Text)
    → Compared candidate expected (tokens_match candidate expected)
unfolding tokens_match
tokens_match-Compared none expected = differs
tokens_match-Compared (some given) [] = differs
tokens_match-Compared (some given) (c ∷ expected) =
    if_elim {x = some (given == c ∷ expected)} {y = none} (Compared (some given) (c ∷ expected))
      (is_ascii given && is_ascii (c ∷ expected))
      (λ ascii. elim (Bool-cases (given == c ∷ expected)) [
        | inl same ↦
            rw same (is_same (ap some ((list_beq_iff given (c ∷ expected)).0 same)) (λ e. cc e))
        | inr other ↦ rw other differs
      ])
      (λ not_ascii. raises_error given refl not_ascii)

-- Whatever a connection begins with: only one whose first frame is a hello with the server's token,
-- which is not blank, becomes the client. The client before it is torn down, the requests that come
-- before the server is found stopped are dispatched and no others, and when the session ends it is the
-- client no longer. In all other cases the connection is closed, none of its frames is dispatched, and
-- the server is as before: when a reply cannot be sent, when the hello is another, which a hello_ack
-- that is not ok tells, and when a token is not ASCII, which no reply tells.
pub session-Admission :
    (conn : ℕ) (hello : Hello) (works : Bool) (turns : List Turn) (later s : Server)
    → Admission conn hello works turns later s
unfolding session greet
session-Admission conn hello true turns later s = elim (Bool-cases (hello.kind == text "hello")) [
  | inl greets ↦
      go greets (tokens_match hello.token s.token) refl (tokens_match-Compared hello.token s.token)
  | inr other ↦
      turned_away
        (inl (λ e. absurd (cc (sym other ∙ (list_beq_iff hello.kind (text "hello")).1 e)))) refl
        (rw other refl) (rw other refl) (rw other refl)
]
  where
    go :
        (hello.kind == text "hello") ≡ true
        → (verdict : Option Bool) → tokens_match hello.token s.token ≡ verdict
        → Compared hello.token s.token verdict
        → Admission conn hello true turns later s
    go greets (some true) e (is_same same given) =
        admitted refl ((list_beq_iff hello.kind (text "hello")).0 greets) same given
          (rw (greets, e) refl) (rw (greets, e) refl) (rw (greets, e) refl)
          (rw (greets, e) (dispatched-Served turns)) (rw (greets, e) (forget-gone conn later))
    go greets (some false) e differs =
        turned_away (inr e) refl (rw (greets, e) refl) (rw (greets, e) refl) (rw (greets, e) refl)
    go greets none e (raises_error given is not_ascii) =
        not_comparable given is not_ascii (rw (greets, e) refl) (rw (greets, e) refl)
          (rw (greets, e) refl)
session-Admission conn hello false turns later s =
    let verdict : Option Bool =
      if hello.kind == text "hello" then tokens_match hello.token s.token else some false in
    let down = silent verdict in broken_off refl (rw down refl) (rw down refl) (rw down refl)
  where
    silent : (verdict : Option Bool) → greet_with conn verdict false s ≡ turned_down none conn s
    silent none = refl
    silent (some false) = refl
    silent (some true) = refl

-- A session that ends late leaves the client that replaced it.
forget-newer :
    (old conn : ℕ) (s : Server)
    → old ≢ conn
    → forget old (set_client (some conn) s) ≡ set_client (some conn) s
unfolding forget
forget-newer old conn s differ = rw (let e : nat_beq conn old ≡ false = ground arith in e)

-- The reply that a request gets: the handler's result, when its frame can be sent, or an error.
pub data Answered (methods : Text → Option Handled) (request : Request) (send : Reply → SendResult)
    : List Reply → Type 0 where
  with_result :
      (result : Text)
      → methods (or_blank request.method) ≡ some (returns result)
      → send (result_of request.id result) ≡ sends
      → Answered methods request send (result_of request.id result ∷ [])
  with_error :
      (error kind : Text) → Answered methods request send (error_of request.id error kind ∷ [])

answer_error-Answered :
    (methods : Text → Option Handled) (request : Request) (send : Reply → SendResult)
    (error kind : Text)
    → send (error_of request.id error kind) ≡ sends
    → Answered methods request send (answer_error request.id kind error send)
answer_error-Answered methods request send error kind h =
    rw (h, answer_error) (with_error error kind)

-- As long as errors can be sent, a request gets one reply under its own id: the result, exactly when
-- the method exists, returns one, and it can be sent.
pub dispatch-Answered :
    (methods : Text → Option Handled) (request : Request) (send : Reply → SendResult)
    → ((error kind : Text) → send (error_of request.id error kind) ≡ sends)
    → Answered methods request send (dispatch methods request send)
unfolding dispatch
dispatch-Answered methods request send errors_pass = go (methods (or_blank request.method)) refl
  where
    go :
        (found : Option Handled)
        → methods (or_blank request.method) ≡ found
        → Answered methods request send
            (reply_to request.id (handle found (or_blank request.method)) send)
    go none e = answer_error-Answered methods request send error kind (errors_pass error kind)
      where
        error : Text
        error = text "Unknown IPC method: " ++ or_blank request.method

        kind : Text
        kind = text "IpcError"
    go (some (raises kind error)) e =
        answer_error-Answered methods request send error kind (errors_pass error kind)
    go (some (returns result)) e = sent (send (result_of request.id result)) refl
      where
        sent :
            (s : SendResult)
            → send (result_of request.id result) ≡ s
            → Answered methods request send (answer_result request.id result s send)
        sent sends f = with_result result e f
        sent (send_raises kind error) f =
            answer_error-Answered methods request send error kind (errors_pass error kind)
