-- ===== src/Ipc/Client/Attempts.antt =====
-- Which clients an attempt to connect can leave (sniff4hound/ipc.py, `IpcClient.connect` and
-- `_ensure_connected`): the ones that single steps reach, with what the other threads rely on.
use sniff4hound.Prelude.Dict.{lookup}
use sniff4hound.Ipc.Client.{Client, Failure, unreachable}
use sniff4hound.Ipc.Client.Connect.{
  install, latch_auth_failure, note_failure, Handshake, Attempt, Ending, accepted, refused, failed,
  breaks_off, raise, after_handshake, connect_loop, connect, rounds, after_check, check_reconnect,
  connect_locked, ensure_connected, reconnect_timeout,
}
use sniff4hound.Ipc.Client.Link.{Reached, after, connects, is_refused, fails_to_connect}
use sniff4hound.Ipc.Client.Callers.{Grows, same-Grows, install-Grows}
use sniff4hound.Prelude.{
  ℕ, zero, suc, ◌+◌, ◌≡◌, refl, false, Option, none, some, leb, if◌then◌else◌, if_elim, number_eq,
  pair_eq,
}

-- A new socket is an object that no reader has.
abbrev pub Fresh : (ℕ → Attempt) → Client → Type 0
Fresh attempts c =
    (k sock : ℕ) → (attempts k).handshake ≡ accepted sock → lookup sock c.readers ≡ none

-- What holds of the client that an attempt to connect leaves, when it comes to an end.
abbrev pub EndsIn : (Client → Type 0) → Option Ending → Type 0
EndsIn P none = Unit
EndsIn P (some ending) = P (ending.0)

module _ (P : Client → Type 0) (c : Client) (attempts : ℕ → Attempt) where
  -- The clients that the loop of `connect` can leave.
  pub record Attempted : Type 0 where
    unchanged : P c
    refuses : P (latch_auth_failure c)
    notes : (now : ℕ) → P (note_failure now c)
    installs : (k sock : ℕ) → (attempts k).handshake ≡ accepted sock → P (install sock c)

  after_handshake-EndsIn :
      (handshake : Handshake) (retry : Option Ending)
      → Attempted
      → ((sock : ℕ) → handshake ≡ accepted sock → P (install sock c))
      → EndsIn P retry
      → EndsIn P (after_handshake handshake c retry)
  after_handshake-EndsIn (accepted sock) retry a i r = i sock refl
  after_handshake-EndsIn refused retry a i r = a.refuses
  after_handshake-EndsIn failed retry a i r = r
  after_handshake-EndsIn breaks_off retry a i r = a.unchanged

  connect_loop-EndsIn :
      (fuel deadline now k : ℕ) → Attempted → EndsIn P (connect_loop fuel deadline now attempts k c)
  unfolding connect_loop
  connect_loop-EndsIn zero deadline now k a = tt
  connect_loop-EndsIn (suc fuel) deadline now k a =
      let later = (attempts k).clock in
      let again = connect_loop fuel deadline later attempts (suc k) c in
      if_elim (EndsIn P) ((attempts k).stopping) (λ stopping. a.notes now)
        (λ going.
          after_handshake-EndsIn ((attempts k).handshake)
            (if leb deadline later then raise unreachable (note_failure later c) else again) a
            (a.installs k)
            (if_elim (EndsIn P) (leb deadline later) (λ over. a.notes later)
              (λ early. connect_loop-EndsIn fuel deadline later (suc k) a)))

  pub connect-EndsIn :
      (budget now : ℕ)
      → P c
      → (c.connected ≡ false → Attempted)
      → EndsIn P (connect budget now attempts c)
  unfolding connect
  connect-EndsIn budget now p a =
      if_elim (EndsIn P) c.connected (λ up. p)
        (λ down.
          if_elim (EndsIn P) c.auth_failed (λ latched. p)
            (λ unlatched. connect_loop-EndsIn (rounds budget) (now + budget) now 0 (a down)))

  checked :
      (raised : Option Failure) (going_on : Option Ending)
      → P c
      → EndsIn P going_on
      → EndsIn P (after_check raised c going_on)
  checked none going_on p g = g
  checked (some raised) going_on p g = p

  pub ensure_connected-EndsIn :
      (now : ℕ) (before : Client) (later : ℕ)
      → P c
      → (c.connected ≡ false → Attempted)
      → EndsIn P (ensure_connected now before later attempts c)
  unfolding ensure_connected connect_locked
  ensure_connected-EndsIn now before later p a =
      if_elim (EndsIn P) before.connected (λ up. p)
        (λ down. checked (check_reconnect now before) (connect_locked later attempts c) p (
          checked (check_reconnect later c)
            (if c.connected then some (c, none) else connect reconnect_timeout later attempts c) p
            (if_elim (EndsIn P) c.connected (λ up. p)
              (λ down. connect-EndsIn reconnect_timeout later p a))))

-- What a step leaves: a client that the steps of `Step` reach as well, and what the other threads rely on.
pub record Carries (b c : Client) : Type 0 where
  pub reached : Reached c
  pub grows : (call : ℕ) → Grows call b c

pub Carries-Attempted :
    (c : Client) (attempts : ℕ → Attempt)
    → Reached c
    → Fresh attempts c
    → c.connected ≡ false
    → Attempted (Carries c) c attempts
unfolding latch_auth_failure note_failure
Carries-Attempted c attempts r fresh down = record {
  unchanged = record { reached = r; grows = λ call. same-Grows call c };
  refuses = record {
    reached = after r is_refused;
    grows = λ call. record { readers_stay = λ sock generation h. h; rides_on = refl };
  };
  notes = λ now. record {
    reached = after r (fails_to_connect now);
    grows = λ call. record { readers_stay = λ sock generation h. h; rides_on = refl };
  };
  installs = λ k sock h. record {
    reached = after r (connects sock down (fresh k sock h));
    grows = λ call. install-Grows call sock c (fresh k sock h);
  };
}
