-- ===== src/Ipc/Client/Callers.antt =====
-- The threads that share one client (sniff4hound/ipc.py, `IpcClient`): any number that make calls, each
-- at its own place in `call`, the readers of the connections, and a thread that closes the client.
use sniff4hound.Prelude.Dict.{lookup, remove, lookup-insert}
use sniff4hound.Prelude.Text.{Text, text}
use sniff4hound.Ipc.Client.{
  Client, Answer, set_pending, deliver_to, resolve, fail_all_pending, drop_connection, take_down,
  owns, close_client, set_stopped, popped, doomed,
}
use sniff4hound.Ipc.Client.Connect.{install}
use sniff4hound.Ipc.Client.Call.{register, enlist, unsent, finish, holds_call}
use sniff4hound.Ipc.Client.Pending.{fail_each_generation}
use sniff4hound.Ipc.Client.Linked.{Linked}
use sniff4hound.Prelude.{
  ℕ, suc, ◌≡◌, refl, ◌∙◌, inl, inr, false, Option, none, some, map, arith, nat_beq, if◌then◌else◌,
  Bool-cases, if_elim, is_none, ◌==◌, same_refl, number_eq, pair_eq,
}

-- What a thread relies on between the registration of its call and the send: the socket that it read has a
-- reader, and the call rides that reader's generation.
pub record Held (call sock : ℕ) (c : Client) : Type 0 where
  pub generation : ℕ
  pub known : lookup sock c.readers ≡ some generation
  pub riding : (c.calls call).generation ≡ some generation

-- What the steps of other threads leave to the thread of `call`: the readers that were started, and the
-- generation that its call rides.
pub record Grows (call : ℕ) (b c : Client) : Type 0 where
  pub readers_stay :
      (sock generation : ℕ)
      → lookup sock b.readers ≡ some generation
      → lookup sock c.readers ≡ some generation
  pub rides_on : (c.calls call).generation ≡ (b.calls call).generation

pub Held-Grows :
    (call sock : ℕ) (b c : Client) → Grows call b c → Held call sock b → Held call sock c
Held-Grows call sock b c g h = record {
  generation = h.generation;
  known = g.readers_stay sock (h.generation) h.known;
  riding = g.rides_on ∙ h.riding;
}

pub same-Grows : (call : ℕ) (c : Client) → Grows call c c
same-Grows call c = record { readers_stay = λ sock generation h. h; rides_on = refl }

pub install-Grows :
    (call sock : ℕ) (c : Client) → lookup sock c.readers ≡ none → Grows call c (install sock c)
unfolding install
install-Grows call sock c fresh = record {
  readers_stay = λ other generation h.
      lookup-insert sock other (suc c.generation) c.readers ∙ elim (Bool-cases (sock == other)) [
        | inl same ↦ let e : sock ≡ other = ground arith in absurd (cc (e, fresh, h))
        | inr differs ↦ rw differs h
      ];
  rides_on = refl;
}

pub fail_all_pending-Grows :
    (call : ℕ) (error : Text) (generation : Option ℕ) (c : Client)
    → Grows call c (fail_all_pending error generation c)
unfolding fail_all_pending
fail_all_pending-Grows call error none c = record {
  readers_stay = λ sock generation h. h;
  rides_on = fail_each_generation (map (λ e. e.1) c.pending) error c.calls call;
}
fail_all_pending-Grows call error (some generation) c = record {
  readers_stay = λ sock g h. h;
  rides_on =
      fail_each_generation (popped (doomed generation c.calls c.pending) c.pending) error c.calls
        call;
}

pub drop_connection-Grows :
    (call : ℕ) (sock : Option ℕ) (error : Text) (generation : Option ℕ) (c : Client)
    → Grows call c (drop_connection sock error generation c)
unfolding drop_connection
drop_connection-Grows call sock error generation c =
    let P : Client → Type 0 = λ b. Grows call c (fail_all_pending error generation b) in
    if_elim P (owns sock c.sock)
      (λ owned.
        let g = fail_all_pending-Grows call error generation (take_down c) in
        record { readers_stay = g.readers_stay; rides_on = g.rides_on })
      (λ stale. fail_all_pending-Grows call error generation c)

pub close_client-Grows :
    (call : ℕ) (sock : Option ℕ) (c : Client) → Grows call c (close_client sock c)
unfolding close_client
close_client-Grows call sock c =
    let g = drop_connection-Grows call sock (text "IPC client closed") none (set_stopped c) in
    record { readers_stay = g.readers_stay; rides_on = g.rides_on }

pub unsent-Grows :
    (call other request_id sock : ℕ) (c : Client) → Grows call c (unsent other request_id sock c)
unfolding unsent
unsent-Grows call other request_id sock c =
    let g =
      drop_connection-Grows call (some sock) (text "IPC connection lost")
        ((c.calls other).generation) (set_pending (remove request_id c.pending) c) in
    record { readers_stay = g.readers_stay; rides_on = g.rides_on }

pub finish-Grows :
    (call other request_id : ℕ) (c : Client) → Grows call c (finish other request_id c)
unfolding finish
finish-Grows call other request_id c =
    if_elim {x = set_pending (remove request_id c.pending) c} {y = c} (Grows call c)
      (holds_call (lookup request_id c.pending) other)
      (λ h. record { readers_stay = λ sock generation known. known; rides_on = refl })
      (λ h. same-Grows call c)

pub resolve-Grows :
    (call request_id : ℕ) (answer : Answer) (c : Client)
    → Grows call c (resolve request_id answer c)
unfolding resolve
resolve-Grows call request_id answer c = go (lookup request_id c.pending)
  where
    go :
        (found : Option ℕ)
        → Grows call c (deliver_to found answer (set_pending (remove request_id c.pending) c))
    go none = record { readers_stay = λ sock generation h. h; rides_on = refl }
    go (some other) = record { readers_stay = λ sock generation h. h; rides_on = ground arith }

pub register-Grows :
    (call other request_id : ℕ) (c : Client)
    → nat_beq call other ≡ false
    → Grows call c ((register other request_id c).1)
unfolding register
register-Grows call other request_id c differs =
    let live : Option ℕ = if c.connected then c.sock else none in
    if_elim {x = c} {y = enlist other request_id c} (Grows call c) (is_none live)
      (λ down. same-Grows call c)
      (λ up. record { readers_stay = λ sock generation h. h; rides_on = rw differs refl })

-- The call that registers rides the generation of the socket that it is given.
pub register-Held :
    (call request_id sock : ℕ) (c : Client)
    → Linked c
    → (register call request_id c).0 ≡ some sock
    → Held call sock ((register call request_id c).1)
unfolding register
register-Held call request_id sock c l given = elim (Bool-cases c.connected) [
  | inl up ↦
      let live : c.sock ≡ some sock = rw up at given in
      rw (up, live)
        (record {
          generation = c.generation;
          known = l.reader_known sock live;
          riding = rw (same_refl call) refl;
        })
  | inr down ↦ absurd (cc (rw down at given))
]
