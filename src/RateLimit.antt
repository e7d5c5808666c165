-- ===== src/RateLimit.antt =====
-- sniff4hound/auth.py: `AuthRateLimiter`, the failed-authentication limiter with doubling lockouts.
-- Times and durations are whole ticks of the monotonic clock: the code adds, compares and doubles
-- them only. A test `t <= now - window` is written `t + window <= now`, so that no difference is cut
-- at zero. Each method runs under the limiter's lock, so it is one step.
pub mod Table
pub mod Failures
pub mod Lockout
mod Examples
use sniff4hound.Prelude.{
  ℕ, zero, suc, ◌+◌, ◌-◌, ◌*◌, ◌^◌, ◌≤◌, ◌<◌, ◌≡◌, Bool, true, false, not, ◌&&◌, ◌||◌, Option, none,
  some, List, [], ◌∷◌, ◌++◌, arith, ltb, leb, if◌then◌else◌, length, keep, min, max, is_none,
}
use sniff4hound.Prelude.Dict.{Dict, lookup, insert, remove}
use sniff4hound.Prelude.Text.{Text, text, strip, or_else, or_blank, is_empty, list_eq}
use sniff4hound.Prelude.Tests.{number_eq}
use sniff4hound.Prelude.Window.{popleft_while, last?}

pub record Entry : Type 0 where
  pub failures : List ℕ
  pub blocked_until : ℕ
  pub strikes : ℕ
  pub seen_at : ℕ

pub record Limiter : Type 0 where
  pub enabled : Bool
  pub window : ℕ
  pub threshold : ℕ
  pub base_lockout : ℕ
  pub max_lockout : ℕ
  pub max_clients : ℕ
  pub clients : Dict Text Entry

-- AuthRateLimiter(...), where `enabled` is AUTH_RATE_LIMIT_ENABLED.
pub init : Bool → ℕ → ℕ → ℕ → ℕ → ℕ → Limiter
init enabled window threshold base_lockout max_lockout max_clients = record {
  enabled = enabled;
  window = max 1 window;
  threshold = max 1 threshold;
  base_lockout = max 1 base_lockout;
  max_lockout = max (max 1 base_lockout) max_lockout;
  max_clients = max 1 max_clients;
  clients = [];
}

-- _key(client)
pub client_key : Option Text → Text
unfolding strip
client_key client = or_else (strip (or_blank client)) (text "unknown")

-- `entry["failures"][-1] <= now - window`, or no failure at all.
abbrev pub is_quiet : ℕ → ℕ → Option ℕ → Bool
is_quiet window now none = true
is_quiet window now (some t) = leb (t + window) now

pub is_stale : Limiter → ℕ → Entry → Bool
is_stale l now e = leb e.blocked_until now && is_quiet l.window now (last? e.failures)

-- min(clients, key=seen_at): the first key of those seen longest ago.
pub oldest : Text → ℕ → Dict Text Entry → Text
oldest best seen [] = best
oldest best seen ((k, e) ∷ m) =
    oldest (if ltb e.seen_at seen then k else best) (min e.seen_at seen) m

abbrev pub oldest? : Dict Text Entry → Option Text
oldest? [] = none
oldest? ((k, e) ∷ m) = some (oldest k e.seen_at m)

-- The `while` of `_evict`, on fuel: one key goes in each round.
pub evict_oldest : ℕ → ℕ → Dict Text Entry → Dict Text Entry
unfolding oldest
evict_oldest zero most m = m
evict_oldest (suc fuel) most m = elim (leb most (length m)) [
  | false ↦ m
  | true ↦ elim (oldest? m) [ none ↦ m | some k ↦ evict_oldest fuel most (remove k m) ]
]

-- _evict(now)
pub evict : Limiter → ℕ → Limiter
unfolding is_stale evict_oldest
evict l now =
    if ltb (length l.clients) l.max_clients
    then l
    else (let live = keep (λ c. not (is_stale l now c.1)) l.clients in
        record l { clients = evict_oldest (length live) l.max_clients live })

abbrev pub fresh : ℕ → Entry
fresh now = record { failures = []; blocked_until = 0; strikes = 0; seen_at = now }

-- _entry(key, now): the table with room for the key, and the key's entry, seen now.
pub entry : Limiter → Text → ℕ → Limiter × Entry
unfolding evict
entry l key now = elim (lookup key l.clients) [
  | some e ↦ (l, record e { seen_at = now })
  | none ↦ (evict l now, fresh now)
]

-- check(client) at a time: is the source allowed, and if not for how long.
pub check : Limiter → Option Text → ℕ → Limiter × Bool × ℕ
unfolding client_key
check l client now =
    if not l.enabled then (l, true, 0) else elim (lookup (client_key client) l.clients) [
      | none ↦ (l, true, 0)
      | some e ↦
          let l' = record l {
            clients = insert (client_key client) (record e { seen_at = now }) l.clients;
          } in
          if ltb now e.blocked_until then (l', false, e.blocked_until - now) else (l', true, 0)
    ]

-- The multiplication makes a float of the integer 2 ** (strikes - 1); from this exponent on that raises
-- an OverflowError. A product that is too large is infinite, and the longest lockout is the lesser one.
abbrev pub float_exponents : ℕ
float_exponents = 1024

-- The lockout for a number of strikes, at least one; none is the OverflowError.
pub lockout : Limiter → ℕ → Option ℕ
lockout l strikes =
    if ltb (strikes - 1) float_exponents
    then some (min (l.base_lockout * 2 ^ (strikes - 1)) l.max_lockout)
    else none

-- The end of `register_failure`: an exception leaves the failures and the time of the block.
abbrev pub lock_out : ℕ → Entry → Option ℕ → Entry × Option ℕ
lock_out now e none = (e, none)
lock_out now e (some applied) =
    (record e { failures = []; blocked_until = now + applied }, some applied)

-- One failure of an entry: the entry afterwards, and the lockout applied, or none for the
-- OverflowError.
pub strike : Limiter → ℕ → Entry → Entry × Option ℕ
unfolding lockout
strike l now e =
    let failures = popleft_while (λ t. leb (t + l.window) now) (e.failures ++ now ∷ []) in
    if ltb (length failures) l.threshold
    then (record e { failures = failures }, some 0)
    else lock_out now (record e { failures = failures; strikes = e.strikes + 1 })
        (lockout l (e.strikes + 1))

-- register_failure(client) at a time; none is the OverflowError.
pub register_failure : Limiter → Option Text → ℕ → Limiter × Option ℕ
unfolding client_key entry strike
register_failure l client now =
    if not l.enabled
    then (l, some 0)
    else (let (l', e) = entry l (client_key client) now in
        let (e', applied) = strike l now e in
        (record l' { clients = insert (client_key client) e' l'.clients }, applied))

-- register_success(client)
pub register_success : Limiter → Option Text → Limiter
unfolding client_key
register_success l client =
    if not l.enabled then l else record l { clients = remove (client_key client) l.clients }

-- blocked_for(client)
pub blocked_for : Limiter → Option Text → ℕ → Limiter × ℕ
unfolding check
blocked_for l client now =
    let (l', allowed, retry_after) = check l client now in (l', if allowed then 0 else retry_after)

pub reset : Limiter → Limiter
reset l = record l { clients = [] }

-- snapshot()["blocked_clients"]
pub blocked_clients : Limiter → ℕ → ℕ
blocked_clients l now = length (keep (λ c. ltb now c.1.blocked_until) l.clients)

-- A call of some thread, with its time.
pub data Call : Type 0 where
  checks fails succeeds asks : Option Text → Call
  resets : Call

pub step : Limiter → ℕ × Call → Limiter
unfolding check register_failure register_success blocked_for reset
step l (now, checks client) = (check l client now).0
step l (now, fails client) = (register_failure l client now).0
step l (now, succeeds client) = register_success l client
step l (now, asks client) = (blocked_for l client now).0
step l (now, resets) = reset l

pub run : Limiter → List (ℕ × Call) → Limiter
unfolding step
run l [] = l
run l (c ∷ cs) = run (step l c) cs
