-- ===== src/Ipc/Client/Once.antt =====
-- A request leaves the process at most once (sniff4hound/ipc.py, `IpcClient.call`): it is sent again
-- only when its send failed, and never a third time.
use sniff4hound.Ipc.Client.{Client, closed}
use sniff4hound.Ipc.Client.Connect.{Ending, ensure_connected}
use sniff4hound.Ipc.Client.Call.{
  CallPhase, ensuring, registering, sending, waiting, ended, Meeting, reconnect, fresh_id, sent,
  woken, next_attempt, after_ensure, after_register, call_step, register, raised,
}
use sniff4hound.Prelude.{
  ℕ, suc, ◌+◌, ◌-◌, ◌≤◌, true, false, Option, none, some, List, [], ◌∷◌, arith, ltb, if_elim,
  number_eq, pair_eq,
}

-- The steps of one call: what each meets, and the client as the other threads have left it by then.
abbrev pub Steps : Type 0
Steps = List (Meeting × Client)

abbrev pub phase_after : ℕ → CallPhase → Steps → CallPhase
phase_after call phase [] = phase
phase_after call phase ((meeting, c) ∷ steps) =
    phase_after call ((call_step call phase meeting c).0) steps

-- The sends that were tried, and those among them that worked.
abbrev pub tries : CallPhase → Meeting → ℕ
tries (sending attempt request_id sock) (sent worked) = 1
tries phase meeting = 0

abbrev pub works : CallPhase → Meeting → ℕ
works (sending attempt request_id sock) (sent true) = 1
works phase meeting = 0

abbrev pub total : (CallPhase → Meeting → ℕ) → ℕ → CallPhase → Steps → ℕ
total count call phase [] = 0
total count call phase ((meeting, c) ∷ steps) =
    count phase meeting + total count call ((call_step call phase meeting c).0) steps

-- The sends that a phase still has.
abbrev pub left : CallPhase → ℕ
left (ensuring attempt) = 3 - attempt
left (registering attempt) = 3 - attempt
left (sending attempt request_id sock) = 3 - attempt
left (waiting request_id) = 0
left (ended call_outcome) = 0

abbrev pub left_works : CallPhase → ℕ
left_works (ensuring attempt) = 1
left_works (registering attempt) = 1
left_works (sending attempt request_id sock) = 1
left_works (waiting request_id) = 0
left_works (ended call_outcome) = 0

-- The attempts are the first and the second.
abbrev pub Counted : CallPhase → Type 0
Counted (ensuring attempt) = (1 ≤ attempt) × (attempt ≤ 2)
Counted (registering attempt) = (1 ≤ attempt) × (attempt ≤ 2)
Counted (sending attempt request_id sock) = (1 ≤ attempt) × (attempt ≤ 2)
Counted phase = Unit

-- What one step does to the counts.
record Advances (phase : CallPhase) (meeting : Meeting) (later : CallPhase) : Type 0 where
  counted : Counted later
  tried : tries phase meeting + left later ≤ left phase
  worked : works phase meeting + left_works later ≤ left_works phase

-- What the attempt after this one still has.
record Fewer (attempt : ℕ) (next : CallPhase) : Type 0 where
  counted : Counted next
  tries_left : left next ≤ 2 - attempt
  works_left : left_works next ≤ 1

next_attempt-Fewer : (attempt : ℕ) → 1 ≤ attempt → Fewer attempt (next_attempt attempt)
next_attempt-Fewer attempt h =
    if_elim {x = ensuring (suc attempt)} {y = ended (raised closed)} (Fewer attempt) (ltb attempt 2)
      (λ first. record {
        counted = (omega arith, ground arith);
        tries_left = omega arith;
        works_left = omega arith;
      })
      (λ last. record { counted = tt; tries_left = omega arith; works_left = omega arith })

call_step-Advances :
    (call : ℕ) (phase : CallPhase) (meeting : Meeting) (c : Client)
    → Counted phase
    → Advances phase meeting ((call_step call phase meeting c).0)
unfolding call_step
call_step-Advances call (ensuring attempt) (reconnect now before later attempts) c h =
    go (ensure_connected now before later attempts c)
  where
    go :
        (e : Option Ending)
        → Advances
            (ensuring attempt)
            (reconnect now before later attempts)
            ((after_ensure attempt c e).0)
    go none = record { counted = h; tried = omega arith; worked = omega arith }
    go (some (after, none)) = record { counted = h; tried = omega arith; worked = omega arith }
    go (some (after, some failure)) = record {
      counted = tt;
      tried = omega arith;
      worked = omega arith;
    }
call_step-Advances call (registering attempt) (fresh_id request_id) c h =
    go (register call request_id c)
  where
    go :
        (e : Option ℕ × Client)
        → Advances
            (registering attempt)
            (fresh_id request_id)
            ((after_register attempt request_id e).0)
    go (none, after) =
        let next = next_attempt-Fewer attempt h.0 in
        record {
          counted = next.counted;
          tried = omega (arith, next.tries_left);
          worked = omega (arith, next.works_left);
        }
    go (some sock, after) = record { counted = h; tried = omega arith; worked = omega arith }
call_step-Advances call (sending attempt request_id sock) (sent true) c h = record {
  counted = tt;
  tried = omega (arith, h.1);
  worked = omega arith;
}
call_step-Advances call (sending attempt request_id sock) (sent false) c h =
    let next = next_attempt-Fewer attempt h.0 in
    record {
      counted = next.counted;
      tried = omega (arith, next.tries_left, h.0, h.1);
      worked = omega (arith, next.works_left);
    }
call_step-Advances call (waiting request_id) (woken in_time) c h = record {
  counted = tt;
  tried = omega arith;
  worked = omega arith;
}
call_step-Advances call phase meeting c h = record {
  counted = h;
  tried = omega arith;
  worked = omega arith;
}

total-left :
    (call : ℕ) (phase : CallPhase) (steps : Steps)
    → Counted phase
    → (total tries call phase steps ≤ left phase)
      × (total works call phase steps ≤ left_works phase)
total-left call phase [] h = (omega arith, omega arith)
total-left call phase ((meeting, c) ∷ steps) h =
    let a = call_step-Advances call phase meeting c h in
    let rest = total-left call ((call_step call phase meeting c).0) steps a.counted in
    (omega (arith, a.tried, rest.0), omega (arith, a.worked, rest.1))

-- However the threads interleave and however often the link is lost, one call tries to send its
-- request at most twice, and at most one of its sends works.
pub call_step-sent_once :
    (call : ℕ) (steps : Steps)
    → (total tries call (ensuring 1) steps ≤ 2) × (total works call (ensuring 1) steps ≤ 1)
call_step-sent_once call steps = total-left call (ensuring 1) steps (omega arith, omega arith)
