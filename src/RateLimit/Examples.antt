-- ===== src/RateLimit/Examples.antt =====
-- Tests of the limiter, and its theorems at concrete sources.
use sniff4hound.Prelude.{
  ℕ, ◌+◌, ◌-◌, ◌≤◌, ◌<◌, ◌≡◌, ◌⊎◌, refl, true, not, Option, none, some, List, [], ◌∷◌, arith, ltb,
  length, min, ◌*◌, ◌^◌,
}
use sniff4hound.Prelude.Dict.{lookup, insert}
use sniff4hound.Prelude.Text.{Text, text}
use sniff4hound.RateLimit.{Limiter, fresh, check, strike, register_failure, step, run, Call, fails}
use sniff4hound.RateLimit.Table.{Bounded, run-Bounded}
use sniff4hound.RateLimit.Failures.{strike_all}
use sniff4hound.RateLimit.Lockout.{
  recent, strike_cases, Doubling, lockout_doubles, check-register_failure, locked_after_threshold,
}

abbrev strict : Limiter
strict = record {
  enabled = true;
  window = 60;
  threshold = 2;
  base_lockout = 5;
  max_lockout = 300;
  max_clients = 2;
  clients = [];
}

abbrev alice : Option Text
alice = some (text " 10.0.0.7 ")

abbrev bob : Option Text
bob = some (text "10.0.0.8")

abbrev twice_failed : List (ℕ × Call)
twice_failed = (10, fails alice) ∷ (20, fails alice) ∷ (21, fails bob) ∷ (22, fails none) ∷ []

after_two : (register_failure (step strict (10, fails alice)) alice 20).1 ≡ some 5
unfolding step register_failure lookup insert
after_two = refl

abbrev warned : Limiter
warned = record strict {
  clients =
      (text "10.0.0.7", record { failures = 10 ∷ []; blocked_until = 0; strikes = 0; seen_at = 10 })
      ∷ [];
}

run-Bounded_example : Bounded (run strict twice_failed)
run-Bounded_example = run-Bounded strict twice_failed (omega arith)

strike_cases_example :
    ((length (recent strict 30 (fresh 30)) < 2)
      × (strike strict 30 (fresh 30)
          ≡ (record (fresh 30) { failures = recent strict 30 (fresh 30) }, some 0)))
    ⊎ ((2 ≤ length (recent strict 30 (fresh 30)))
        × (((0 < 1024)
              × (strike strict 30 (fresh 30) ≡ (
                record (fresh 30) {
                  failures = [];
                  blocked_until = 30 + min (5 * 2 ^ 0) 300;
                  strikes = 1;
                },
                some (min (5 * 2 ^ 0) 300),
              )))
            ⊎ ((1024 ≤ 0)
                × (strike strict 30 (fresh 30) ≡ (
                  record (fresh 30) { failures = recent strict 30 (fresh 30); strikes = 1 },
                  none,
                )))))
strike_cases_example = strike_cases strict 30 (fresh 30) tt tt

-- A source with 1024 strikes behind it: the next one raises, and the source is not locked out.
abbrev persistent : Limiter
persistent = record strict {
  clients =
      (
        text "10.0.0.7",
        record { failures = 70 ∷ []; blocked_until = 50; strikes = 1024; seen_at = 70 },
      )
      ∷ [];
}

overflow : (register_failure persistent alice 80).1 ≡ none
unfolding register_failure lookup
overflow = refl

still_allowed : (check (register_failure persistent alice 80).0 alice 81).1 ≡ true
unfolding register_failure check lookup insert
still_allowed = refl

lockout_doubles_example : Doubling strict 2
lockout_doubles_example = lockout_doubles strict 2 (omega arith)

locked_out : (register_failure warned alice 20).1 ≡ some 5
unfolding register_failure lookup
locked_out = refl

check-register_failure_example :
    ((check (register_failure warned alice 20).0 alice 22).1 ≡ not (ltb 22 (20 + 5)))
    × ((check (register_failure warned alice 20).0 alice 22).2 ≡ 20 + 5 - 22)
check-register_failure_example =
    check-register_failure warned alice alice 20 22 5 refl refl locked_out (omega arith)

locked_after_threshold_example :
    ((strike_all strict (fresh 1) (10 ∷ [])).blocked_until ≡ 0)
    × ((strike strict 12 (strike_all strict (fresh 1) (10 ∷ []))).1 ≡ some (min 5 300))
    × ((strike strict 12 (strike_all strict (fresh 1) (10 ∷ []))).0.blocked_until ≡ 12 + min 5 300)
locked_after_threshold_example =
    locked_after_threshold strict 1 (10 ∷ []) 12 (omega arith) (omega arith) (omega arith)
