-- ===== src/Ipc/Client/Linked.antt =====
-- The invariant of the client (sniff4hound/ipc.py, `IpcClient`), and the operations that register, answer and
-- connect.
use sniff4hound.Prelude.Dict.{Dict, lookup, insert, remove, lookup-insert}
use sniff4hound.Ipc.Client.{
  Client, PendingCall, Answer, init, set_pending, set_calls, write_call, deliver, deliver_to, rides,
  take_down, set_generation,
}
use sniff4hound.Ipc.Client.Pending.{Rides, All-remove, All-insert, rides_same}
use sniff4hound.Prelude.Window.{All-map}
use sniff4hound.Ipc.Client.Connect.{install}
use sniff4hound.Ipc.Client.Call.{enlist}
use sniff4hound.Prelude.{
  ℕ, suc, ◌≤◌, ◌≡◌, refl, sym, ap, ◌∙◌, ◌⊎◌, inl, inr, true, false, not, Option, none, some, [],
  arith, nat_beq, All, Bool-cases, if_elim, is_none, ◌==◌, same_refl, number_eq, pair_eq,
}

-- The reader of the newest generation reads the live socket, when one is live.
abbrev pub IsCurrent : Client → ℕ → Type 0
IsCurrent c sock = (c.sock ≡ none) ⊎ (c.sock ≡ some sock)

pub record Linked (c : Client) : Type 0 where
  pub up_has_sock : c.connected ≡ not (is_none c.sock)
  pub down_has_none : c.connected ≡ false → c.pending ≡ []
  pub all_ride : All (Rides c.generation c.calls) c.pending
  pub reader_known : (sock : ℕ) → c.sock ≡ some sock → lookup sock c.readers ≡ some c.generation
  pub reader_old : (sock g : ℕ) → lookup sock c.readers ≡ some g → g ≤ c.generation
  pub newest : (sock : ℕ) → lookup sock c.readers ≡ some c.generation → IsCurrent c sock

pub init-Linked : Linked init
unfolding init lookup
init-Linked = record {
  up_has_sock = refl;
  down_has_none = λ h. refl;
  all_ride = tt;
  reader_known = λ sock h. absurd (cc h);
  reader_old = λ sock g h. absurd (cc h);
  newest = λ sock h. absurd (cc h);
}

-- Another generation for the calls that keeps those that rode.
unfoldable pub Keeps : ℕ → (ℕ → PendingCall) → (ℕ → PendingCall) → Type 0
Keeps generation old new =
    (call : ℕ) → rides generation (old call) ≡ true → rides generation (new call) ≡ true

-- Fewer entries, and calls that ride as before.
pub fewer-Linked :
    (c : Client) (pending : Dict ℕ ℕ) (calls : ℕ → PendingCall)
    → Linked c
    → (c.pending ≡ [] → pending ≡ [])
    → All (Rides c.generation c.calls) pending
    → Keeps c.generation c.calls calls
    → Linked (set_calls calls (set_pending pending c))
unfolding Keeps
fewer-Linked c pending calls l nothing ride keeps = record {
  up_has_sock = l.up_has_sock;
  down_has_none = λ down. nothing (l.down_has_none down);
  all_ride = All-map (λ e h. keeps (e.1) h) pending ride;
  reader_known = l.reader_known;
  reader_old = l.reader_old;
  newest = l.newest;
}

pub remove-Linked :
    (c : Client) (request_id : ℕ) → Linked c → Linked (set_pending (remove request_id c.pending) c)
unfolding Keeps
remove-Linked c request_id l =
    fewer-Linked c (remove request_id c.pending) c.calls l
      (λ e. ap (remove request_id) e ∙ unfold remove in refl)
      (All-remove (Rides c.generation c.calls) request_id c.pending l.all_ride) (λ call h. h)

pub deliver_to-Linked :
    (found : Option ℕ) (answer : Answer) (c : Client)
    → Linked c
    → Linked (deliver_to found answer c)
unfolding Keeps
deliver_to-Linked none answer c l = l
deliver_to-Linked (some call) answer c l =
    fewer-Linked c c.pending (write_call call (deliver answer) c.calls) l (λ e. e) l.all_ride
      (λ other h.
        rides_same c.generation (c.calls other) (write_call call (deliver answer) c.calls other)
          (ground arith) h)

take_down-Linked : (c : Client) → Linked c → c.pending ≡ [] → Linked (take_down c)
take_down-Linked c l nothing = record {
  up_has_sock = refl;
  down_has_none = λ down. nothing;
  all_ride = l.all_ride;
  reader_known = λ sock h. absurd (cc h);
  reader_old = l.reader_old;
  newest = λ sock h. inl refl;
}

pub some_injective : {a b : ℕ} → some a ≡ some b → a ≡ b
some_injective h = cc

reader_cases :
    (c : Client) (sock s generation : ℕ)
    → lookup s (insert sock (suc c.generation) c.readers) ≡ some generation
    → ((sock ≡ s) × (generation ≡ suc c.generation)) ⊎ (lookup s c.readers ≡ some generation)
reader_cases c sock s generation h =
    let found = sym (lookup-insert sock s (suc c.generation) c.readers) ∙ h in
    elim (Bool-cases (sock == s)) [
      | inl same ↦ inl (ground arith, sym (some_injective (rw same at found)))
      | inr differs ↦ inr (rw differs at found)
    ]

rides-write_call :
    (generation call other : ℕ) (calls : ℕ → PendingCall)
    → (nat_beq other call ≡ false → rides generation (calls other) ≡ true)
    → rides generation (write_call call (set_generation generation) calls other) ≡ true
rides-write_call generation call other calls h =
    if_elim {x = set_generation generation (calls other)} {y = calls other}
      (λ c. rides generation c ≡ true) (nat_beq other call) (λ same. same_refl generation) h

pub enlist-Linked :
    (c : Client) (call request_id : ℕ)
    → Linked c
    → c.connected ≡ true
    → Linked (enlist call request_id c)
enlist-Linked c call request_id l up =
    let calls = write_call call (set_generation c.generation) c.calls in
    record {
      up_has_sock = l.up_has_sock;
      down_has_none = λ down. absurd (cc);
      all_ride =
          All-insert c.generation request_id call calls c.pending
            (rides-write_call c.generation call call c.calls
              (λ other. absurd (cc (same_refl call))))
            (All-map (λ e h. rides-write_call c.generation call (e.1) c.calls (λ other. h))
              c.pending l.all_ride);
      reader_known = l.reader_known;
      reader_old = l.reader_old;
      newest = l.newest;
    }

pub install-Linked :
    (c : Client) (sock : ℕ)
    → Linked c
    → c.connected ≡ false
    → lookup sock c.readers ≡ none
    → Linked (install sock c)
unfolding install
install-Linked c sock l down fresh = record {
  up_has_sock = refl;
  down_has_none = λ h. absurd (cc h);
  all_ride = rw (l.down_has_none down) tt;
  reader_known = λ s h. lookup-insert sock s (suc c.generation) c.readers ∙ ground arith;
  reader_old = λ s g h. elim (reader_cases c sock s g h) [
    | inl same ↦ omega (arith, same.1)
    | inr other ↦ omega (arith, l.reader_old s g other)
  ];
  newest = λ s h. elim (reader_cases c sock s (suc c.generation) h) [
    | inl same ↦ inr (ap some same.0)
    | inr other ↦ absurd (omega (arith, l.reader_old s (suc c.generation) other))
  ];
}
