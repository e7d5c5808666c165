-- ===== src/Pipeline/Examples.antt =====
-- Tests of the packet cache, and its theorems at concrete bursts and interleavings.
use sniff4hound.Prelude.{ℕ, ◌≡◌, refl, false, none, some, List, [], ◌∷◌, arith}
use sniff4hound.Pipeline.{PacketCache, put, make_room, Call, puts, gets, sets_limit, closes, run}
use sniff4hound.Pipeline.Calls.{Outcome}
use sniff4hound.Pipeline.Fifo.{run-Outcome, burst, burst_newest}

abbrev empty_cache : PacketCache ℕ
empty_cache = record { items = []; limit = 2; closed = false; accepted = 0; dropped = 0; peak = 0 }

abbrev calls : List (Call ℕ)
calls = puts 1 ∷ puts 2 ∷ puts 3 ∷ gets ∷ sets_limit 1 ∷ puts 4 ∷ closes ∷ puts 5 ∷ []

overflowing :
    burst empty_cache (1 ∷ 2 ∷ 3 ∷ [])
    ≡ some (record {
      items = 2 ∷ 3 ∷ [];
      limit = 2;
      closed = false;
      accepted = 3;
      dropped = 1;
      peak = 2;
    })
unfolding burst put make_room
overflowing = refl

-- A bound of zero makes `put` pop an empty deque.
no_room : put (record empty_cache { limit = 0 }) 1 ≡ none
unfolding put make_room
no_room = refl

run-Outcome_example : Outcome empty_cache (run empty_cache calls)
run-Outcome_example =
    run-Outcome empty_cache calls
      (record { bounded = omega arith; peaked = omega arith; drained = λ e. refl }) (omega arith)
      (omega arith)

burst_newest_example :
    (c : PacketCache ℕ) × (burst empty_cache (1 ∷ 2 ∷ 3 ∷ []) ≡ some c)
    × (c.items ≡ 2 ∷ 3 ∷ [])
    × (c.dropped ≡ 1)
    × (c.accepted ≡ 3)
burst_newest_example = burst_newest empty_cache (1 ∷ 2 ∷ 3 ∷ []) refl (omega arith) (omega arith)
