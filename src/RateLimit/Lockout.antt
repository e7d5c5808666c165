-- ===== src/RateLimit/Lockout.antt =====
-- When the limiter locks a source out, for how long, and what the source is told meanwhile.
use mathlib.Core.Path.{fun_ext}
use native.Mathlib.Nat.{pow-suc}
use sniff4hound.Prelude.{
  ℕ, zero, suc, ◌+◌, ◌-◌, ◌*◌, ◌^◌, ◌≤◌, ◌<◌, ◌≡◌, ◌⊎◌, refl, ap, ◌∙◌, true, false, not, Option,
  some, List, [], ◌∷◌, ◌++◌, arith, ltb, leb, length, keep, min, inl, inr, Bool-cases, ltb→lt, none,
  if_elim, ltb-false→le, All, All-append, length-append, subst,
}
use sniff4hound.Prelude.Dict.{lookup, insert, lookup-insert_self, lookup-remove_self}
use sniff4hound.Prelude.Text.{Text, list_eq}
use sniff4hound.Prelude.Tests.{number_eq}
use sniff4hound.Prelude.Window.{popleft_while, Rising, Rising-snoc, popleft_while-keep}
use sniff4hound.RateLimit.{
  Entry, Limiter, client_key, fresh, entry, check, lockout, lock_out, strike, register_failure,
  register_success,
}
use sniff4hound.RateLimit.Failures.{
  strike_all, strike_all-failures, popleft_while_none, still_recent,
}

-- The failures that still count at a time, the new one included.
abbrev pub recent : Limiter → ℕ → Entry → List ℕ
recent l now e = keep (λ t. ltb now (t + l.window)) (e.failures ++ now ∷ [])

old_or_recent : (l : Limiter) (now t : ℕ) → not (leb (t + l.window) now) ≡ ltb now (t + l.window)
old_or_recent l now t = ground arith

popleft_while-recent :
    (l : Limiter) (now : ℕ) (e : Entry)
    → Rising e.failures
    → All (λ t. t ≤ now) e.failures
    → popleft_while (λ t. leb (t + l.window) now) (e.failures ++ now ∷ []) ≡ recent l now e
popleft_while-recent l now e r h =
    popleft_while-keep (λ t. leb (t + l.window) now) (e.failures ++ now ∷ [])
      (λ s t le old. ground arith) (Rising-snoc e.failures now r h)
    ∙ ap (λ p. keep p (e.failures ++ now ∷ [])) (fun_ext (old_or_recent l now))

lockout_below :
    (l : Limiter) (strikes : ℕ)
    → ltb strikes 1024 ≡ true
    → lockout l (strikes + 1) ≡ some (min (l.base_lockout * 2 ^ strikes) l.max_lockout)
unfolding lockout
lockout_below l strikes h = rw (let e : strikes + 1 - 1 ≡ strikes = omega arith in e) (rw h refl)

lockout_above :
    (l : Limiter) (strikes : ℕ) → ltb strikes 1024 ≡ false → lockout l (strikes + 1) ≡ none
unfolding lockout
lockout_above l strikes h = rw (let e : strikes + 1 - 1 ≡ strikes = omega arith in e) (rw h refl)

-- A failure counts the failures of the last `window` ticks, by the deque as by a scan of the whole
-- history, when the recorded times rise up to now. Below the threshold it keeps exactly those and
-- changes neither strikes nor lockout; from the threshold on it adds a strike. With fewer than 1024
-- strikes before, it then forgets the failures and locks the source out until `now` plus the base
-- doubled by each of them, at most the maximum, which it returns; with 1024 or more it raises, keeps the
-- failures and locks nobody out.
pub strike_cases :
    (l : Limiter) (now : ℕ) (e : Entry)
    → Rising e.failures
    → All (λ t. t ≤ now) e.failures
    → ((length (recent l now e) < l.threshold)
        × (strike l now e ≡ (record e { failures = recent l now e }, some 0)))
      ⊎ ((l.threshold ≤ length (recent l now e))
          × (((e.strikes < 1024)
                × (strike l now e ≡ (
                  record e {
                    failures = [];
                    blocked_until = now + min (l.base_lockout * 2 ^ e.strikes) l.max_lockout;
                    strikes = e.strikes + 1;
                  },
                  some (min (l.base_lockout * 2 ^ e.strikes) l.max_lockout),
                )))
              ⊎ ((1024 ≤ e.strikes)
                  × (strike l now e
                      ≡ (record e { failures = recent l now e; strikes = e.strikes + 1 }, none)))))
unfolding strike
strike_cases l now e r h =
    rw (popleft_while-recent l now e r h, strike)
      (elim (Bool-cases (ltb (length (recent l now e)) l.threshold)) [
        | inl few ↦ inl (ltb→lt _ _ few, rw (few, strike))
        | inr many ↦ inr (
          ltb-false→le _ _ many,
          elim (Bool-cases (ltb e.strikes 1024)) [
            | inl doubles ↦
                inl (ltb→lt _ _ doubles, rw (many, lockout_below l e.strikes doubles, strike))
            | inr overflows ↦
                inr (
                  ltb-false→le _ _ overflows,
                  rw (many, lockout_above l e.strikes overflows, strike),
                )
          ],
        )
      ])

pow_pos : (s : ℕ) → 1 ≤ 2 ^ s
pow_pos zero = omega arith
pow_pos (suc s) = omega (arith, pow-suc 2 s, pow_pos s)

-- The lockout after a number of earlier strikes.
pub data Doubling (l : Limiter) (strikes : ℕ) : Type 0 where
  doubles :
      (applied : ℕ)
      → strikes < 1023
      → lockout l (strikes + 1) ≡ some applied
      → l.base_lockout ≤ applied
      → applied ≤ l.max_lockout
      → lockout l (suc strikes + 1) ≡ some (min (2 * applied) l.max_lockout)
      → Doubling l strikes
  is_last :
      (applied : ℕ)
      → strikes ≡ 1023
      → lockout l (strikes + 1) ≡ some applied
      → l.base_lockout ≤ applied
      → applied ≤ l.max_lockout
      → lockout l (suc strikes + 1) ≡ none
      → Doubling l strikes
  overflows : 1023 < strikes → lockout l (strikes + 1) ≡ none → Doubling l strikes

more_than_base : (base strikes : ℕ) → base ≤ base * 2 ^ strikes
more_than_base base strikes = grind (arith, pow_pos strikes)

doubled :
    (base most strikes : ℕ)
    → min (base * 2 ^ suc strikes) most ≡ min (2 * min (base * 2 ^ strikes) most) most
doubled base most strikes =
    rw
      (let e : base * 2 ^ suc strikes ≡ 2 * (base * 2 ^ strikes) =
          grind (arith, pow-suc 2 strikes) in
        e)
      (omega arith)

-- A lockout is never shorter than the base and never longer than the maximum, where the maximum is no
-- less than the base, and each further strike doubles it until it meets the maximum. That is so for 1024
-- strikes; each strike after them raises, and gives no lockout.
pub lockout_doubles :
    (l : Limiter) (strikes : ℕ) → l.base_lockout ≤ l.max_lockout → Doubling l strikes
lockout_doubles l strikes h =
    let applied : ℕ = min (l.base_lockout * 2 ^ strikes) l.max_lockout in
    let more = more_than_base l.base_lockout strikes in
    elim (Bool-cases (ltb strikes 1023)) [
      | inl early ↦
          doubles applied (ltb→lt _ _ early) (lockout_below l strikes (ground arith)) (omega arith)
            (omega arith)
            (lockout_below l (suc strikes) (ground arith)
              ∙ ap some (doubled l.base_lockout l.max_lockout strikes))
      | inr late ↦ elim (Bool-cases (ltb strikes 1024)) [
        | inl last ↦
            is_last applied (ground arith) (lockout_below l strikes last) (omega arith)
              (omega arith) (lockout_above l (suc strikes) (ground arith))
        | inr over ↦ overflows (ground arith) (lockout_above l strikes over)
      ]
    ]

-- What `check` says of a source that is locked out until some time.
check_found :
    (l : Limiter) (client : Option Text) (e : Entry) (t : ℕ)
    → l.enabled ≡ true
    → lookup (client_key client) l.clients ≡ some e
    → ((check l client t).1 ≡ not (ltb t e.blocked_until))
      × ((check l client t).2 ≡ e.blocked_until - t)
unfolding check
check_found l client e t on found = elim (Bool-cases (ltb t e.blocked_until)) [
  | inl blocked ↦ (simp (on, found, blocked, check), simp (on, found, blocked, check))
  | inr free ↦ (
    simp (on, found, free, check),
    simp (on, found, free, check) (omega (arith, ltb-false→le _ _ free)),
  )
]

strike_locks :
    (l : Limiter) (now : ℕ) (e : Entry) (applied : ℕ)
    → (strike l now e).1 ≡ some applied
    → 0 < applied
    → (strike l now e).0.blocked_until ≡ now + applied
unfolding strike
strike_locks l now e applied =
    let failures = popleft_while (λ t. leb (t + l.window) now) (e.failures ++ now ∷ []) in
    if_elim
      {y = lock_out now (record e { failures = failures; strikes = e.strikes + 1 })
        (lockout l (e.strikes + 1))}
      (λ r. r.1 ≡ some applied → 0 < applied → r.0.blocked_until ≡ now + applied)
      (ltb (length failures) l.threshold)
      (λ few h positive.
        absurd (let z : 0 ≡ applied = some_injective h in omega (arith, z, positive)))
      (λ many.
        locks (record e { failures = failures; strikes = e.strikes + 1 })
          (lockout l (e.strikes + 1)))
  where
    some_injective : {a b : ℕ} → some a ≡ some b → a ≡ b
    some_injective h = cc

    locks :
        (e : Entry) (found : Option ℕ)
        → (lock_out now e found).1 ≡ some applied
        → 0 < applied
        → (lock_out now e found).0.blocked_until ≡ now + applied
    locks e none h positive = absurd (cc h)
    locks e (some n) h positive = ap (λ k. now + k) (some_injective h)

entry-enabled : (l : Limiter) (key : Text) (now : ℕ) → (entry l key now).0.enabled ≡ l.enabled
unfolding entry
entry-enabled l key now = ground arith

abbrev written : Limiter → Text → ℕ → Limiter
written l key now =
    let (l', e) = entry l key now in
    record l' { clients = insert key (strike l now e).0 l'.clients }

register_failure_on :
    (l : Limiter) (client : Option Text) (now : ℕ)
    → l.enabled ≡ true
    → register_failure l client now
      ≡ (written l (client_key client) now, (strike l now (entry l (client_key client) now).1).1)
unfolding register_failure
register_failure_on l client now on = simp on

-- After a failure that returned a lockout, the source is refused at exactly the times before the
-- lockout ends, with the time that is left (none from then on), under every spelling of the client
-- that has the same key.
pub check-register_failure :
    (l : Limiter) (client same : Option Text) (now t applied : ℕ)
    → l.enabled ≡ true
    → client_key same ≡ client_key client
    → (register_failure l client now).1 ≡ some applied
    → 0 < applied
    → let l' = (register_failure l client now).0 in
      ((check l' same t).1 ≡ not (ltb t (now + applied)))
      × ((check l' same t).2 ≡ now + applied - t)
check-register_failure l client same now t applied on key h positive =
    let key' = client_key client in
    let e = (strike l now (entry l key' now).1).0 in
    let eq = register_failure_on l client now on in
    let until =
      strike_locks l now (entry l key' now).1 applied (subst (λ r. r.1 ≡ some applied) eq h)
        positive in
    let seen =
      check_found (written l key' now) same e t (entry-enabled l key' now ∙ on)
        (rw key (lookup-insert_self key' e (entry l key' now).0.clients)) in
    rw eq (rw (← until) seen)

lockout_first : (l : Limiter) → lockout l 1 ≡ some (min l.base_lockout l.max_lockout)
unfolding lockout
lockout_first l = ap some (omega arith)

-- A source with no history that fails `threshold` times inside one window is locked out by the last
-- of these failures, until the time of that failure plus its first lockout, and by none before it:
-- the failures before the last only add up.
pub locked_after_threshold :
    (l : Limiter) (seen : ℕ) (ts : List ℕ) (last : ℕ)
    → All (λ t. (t ≤ last) × (last < t + l.window)) ts
    → 0 < l.window
    → length ts + 1 ≡ l.threshold
    → ((strike_all l (fresh seen) ts).blocked_until ≡ 0)
      × ((strike l last (strike_all l (fresh seen) ts)).1 ≡ some (min l.base_lockout l.max_lockout))
      × ((strike l last (strike_all l (fresh seen) ts)).0.blocked_until
          ≡ last + min l.base_lockout l.max_lockout)
locked_after_threshold l seen ts last h w n =
    let before = strike_all-failures l (fresh seen) ts last h tt (omega arith) in
    let near = All-append (λ s. last < s + l.window) ts (last ∷ []) (each ts h) (omega arith, tt) in
    let stays =
      popleft_while_none (λ s. leb (s + l.window) last) (ts ++ last ∷ [])
        (still_recent l.window last last (ts ++ last ∷ []) (omega arith) near) in
    let size = length-append ts (last ∷ []) in
    let many : ltb (length (ts ++ last ∷ [])) l.threshold ≡ false = ground arith in
    let first = lockout_first l in
    rw before (
      refl,
      unfold strike in rw (stays, strike) (rw (many, first, strike)),
      unfold strike in rw (stays, strike) (rw many (unfold lockout in omega arith)),
    )
  where
    each :
        (ts : List ℕ)
        → All (λ t. (t ≤ last) × (last < t + l.window)) ts
        → All (λ s. last < s + l.window) ts
    each [] h = tt
    each (t ∷ ts) h = (h.0.1, each ts h.1)

-- A success clears the source's history: the source is allowed at once, whatever its lockout was,
-- and its next failure counts as its first.
pub register_success-forgets :
    (l : Limiter) (client same : Option Text) (now : ℕ)
    → l.enabled ≡ true
    → client_key same ≡ client_key client
    → (check (register_success l client) same now ≡ (register_success l client, true, 0))
      × ((entry (register_success l client) (client_key same) now).1 ≡ fresh now)
unfolding check register_success entry
register_success-forgets l client same now on key =
    let gone = lookup-remove_self (client_key client) l.clients in
    simp (on, key, gone, check, entry, register_success) (refl, refl)
