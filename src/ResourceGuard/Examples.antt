-- ===== src/ResourceGuard/Examples.antt =====
-- The resource guard at concrete inputs.
use sniff4hound.Prelude.{◌++◌, ◌↔◌, ◌≡◌, refl, true, false, List, [], ◌∷◌, arith}
use sniff4hound.ResourceGuard.{
  Kind, PerKind, none_of_each, no_counters, Config, GuardState, Guard, below_resume, count_all,
  exceeded_of, observe, decide, resume, persist, sample, start, Event, samples, resets,
  operator_stops, run,
}
use sniff4hound.ResourceGuard.Pauses.{Agrees, run-Agrees, Counted, sample-Counted}
use sniff4hound.ResourceGuard.Renewed.{Over, sample-Resumed}
use sniff4hound.ResourceGuard.Cooldown.{Held, run-Held, run-unseen_stop}

abbrev config : Config
config = record {
  limits = record { cpu_of = 90; ram_of = 0; storage_of = 500 };
  resume_percent = 80;
  cooldown_seconds = 300;
}

abbrev busy : PerKind
busy = record { cpu_of = 950; ram_of = 7000; storage_of = 10 }

abbrev quiet : PerKind
quiet = record { cpu_of = 100; ram_of = 7000; storage_of = 10 }

abbrev stored : GuardState
stored = record {
  paused = true;
  reason = Kind.ram ∷ [];
  counters = no_counters;
  measured = none_of_each;
}

abbrev two_busy : List Event
two_busy = samples config busy true 10 ∷ samples config busy true 15 ∷ []

run-Agrees_example : Agrees (run (start stored true) two_busy)
run-Agrees_example = run-Agrees stored true two_busy refl

abbrev paused : Guard
paused = record {
  over = record { cpu_of = 2; ram_of = 0; storage_of = 0 };
  paused_by_guard = true;
  paused_since = 15;
  state = record { paused = true; reason = Kind.cpu ∷ []; counters = no_counters; measured = busy };
  stored = stored;
  last_write = 10;
  capturing = false;
}

sample-Counted_example : Counted 400 paused (sample config quiet true 400 paused)
sample-Counted_example = sample-Counted config quiet true 400 paused

run-Held_example : Held 15 (
    run paused
      (samples config quiet true 100 ∷ resets true 101 ∷ samples config quiet true 314 ∷ []))
run-Held_example =
    run-Held 15 paused
      (samples config quiet true 100 ∷ resets true 101 ∷ samples config quiet true 314 ∷ [])
      (omega arith, (tt, (omega arith, tt)))
      (record { paused = refl; held_since = refl; stopped = refl })

over_again : (sample config quiet true 400 paused).paused_by_guard ≡ false
unfolding sample observe decide count_all exceeded_of below_resume resume persist
over_again = refl

sample-Resumed_example :
    let next = sample config busy true 405 (sample config quiet true 400 paused) in
    (next.paused_by_guard ≡ false)
    × (((sample config busy true 410 next).paused_by_guard ≡ true)
        ↔ ((k : Kind) × (Over config busy k × Over config busy k)))
sample-Resumed_example =
    sample-Resumed config config config quiet busy busy true true true 400 405 410 paused
      (omega arith) refl over_again

low : below_resume config.limits quiet 80 ≡ true
unfolding below_resume
low = refl

-- An operator stops the capture during the pause, after a sample and a reset.
abbrev in_pause : List Event
in_pause = samples config quiet true 100 ∷ resets true 101 ∷ []

run-unseen_stop_example :
    (run paused (in_pause ++ operator_stops ∷ samples config busy true 405 ∷ [])
      ≡ run paused (in_pause ++ samples config busy true 405 ∷ []))
    × ((run paused (in_pause ++ operator_stops ∷ samples config quiet true 400 ∷ [])).capturing
        ≡ true)
run-unseen_stop_example =
    run-unseen_stop 15 paused in_pause (samples config busy true 405 ∷ []) config quiet true 400
      (record { paused = refl; held_since = refl; stopped = refl }) (omega arith, (tt, tt))
      (omega arith) low
