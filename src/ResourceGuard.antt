-- ===== src/ResourceGuard.antt =====
-- sniff4hound/resource_guard.py: the limits' settings, and one measurement pass of the guard. What is
-- measured is in tenths of the limits' units, as `measure` rounds it. The sniffer is its running
-- flag, which an operator changes too. Times are ticks of the monotonic clock.
pub mod Streaks
pub mod Pauses
pub mod Cooldown
pub mod Renewed
mod Examples
use sniff4hound.Prelude.{
  ℕ, zero, suc, ◌+◌, ◌-◌, ◌*◌, Bool, true, false, not, ◌&&◌, ◌||◌, Option, none, some, List, [],
  ◌∷◌, ◌++◌, ltb, leb, nat_beq, if◌then◌else◌,
}

pub data Kind : Type 0 where
  cpu ram storage : Kind

-- A number for each kind of LIMIT_KINDS.
pub record PerKind : Type 0 where
  pub cpu_of : ℕ
  pub ram_of : ℕ
  pub storage_of : ℕ

abbrev pub of_kind : PerKind → Kind → ℕ
of_kind v Kind.cpu = v.cpu_of
of_kind v Kind.ram = v.ram_of
of_kind v Kind.storage = v.storage_of

pub record Config : Type 0 where
  pub limits : PerKind
  pub resume_percent : ℕ
  pub cooldown_seconds : ℕ

pub record Counters : Type 0 where
  pub trips : ℕ
  pub by_kind : PerKind
  pub paused_seconds : ℕ

-- The state that is kept in the database.
pub record GuardState : Type 0 where
  pub paused : Bool
  pub reason : List Kind
  pub counters : Counters
  pub measured : PerKind

pub record Guard : Type 0 where
  pub over : PerKind
  pub paused_by_guard : Bool
  pub paused_since : ℕ
  pub state : GuardState
  pub stored : GuardState
  pub last_write : ℕ
  pub capturing : Bool

abbrev pub none_of_each : PerKind
none_of_each = record { cpu_of = 0; ram_of = 0; storage_of = 0 }

abbrev pub no_counters : Counters
no_counters = record { trips = 0; by_kind = none_of_each; paused_seconds = 0 }

abbrev pub trip_samples : ℕ
trip_samples = 2

abbrev pub write_every_seconds : ℕ
write_every_seconds = 30

-- limit and measured > limit
abbrev pub is_over : ℕ → ℕ → Bool
is_over limit tenths = ltb 0 limit && ltb (limit * 10) tenths

abbrev pub count_over : ℕ → ℕ → ℕ → ℕ
count_over limit tenths count = if is_over limit tenths then suc count else 0

unfoldable pub count_all : PerKind → PerKind → PerKind → PerKind
count_all limits measured over = record {
  cpu_of = count_over limits.cpu_of measured.cpu_of over.cpu_of;
  ram_of = count_over limits.ram_of measured.ram_of over.ram_of;
  storage_of = count_over limits.storage_of measured.storage_of over.storage_of;
}

-- The kinds whose count has just reached the number of samples that trips.
abbrev pub if_exceeded : Kind → ℕ → List Kind → List Kind
if_exceeded kind count rest = if nat_beq count trip_samples then kind ∷ rest else rest

unfoldable pub exceeded_of : PerKind → List Kind
exceeded_of over =
    if_exceeded Kind.cpu over.cpu_of
      (if_exceeded Kind.ram over.ram_of (if_exceeded Kind.storage over.storage_of []))

-- limit and measured >= limit * resume_percent / 100
abbrev pub is_high : ℕ → ℕ → ℕ → Bool
is_high percent limit tenths = ltb 0 limit && leb (limit * percent) (tenths * 10)

unfoldable pub below_resume : PerKind → PerKind → ℕ → Bool
below_resume limits measured percent =
    not (is_high percent limits.cpu_of measured.cpu_of)
    && not (is_high percent limits.ram_of measured.ram_of)
    && not (is_high percent limits.storage_of measured.storage_of)

abbrev pub add_kind : Kind → PerKind → PerKind
add_kind Kind.cpu v = record v { cpu_of = suc v.cpu_of }
add_kind Kind.ram v = record v { ram_of = suc v.ram_of }
add_kind Kind.storage v = record v { storage_of = suc v.storage_of }

abbrev pub add_kinds : List Kind → PerKind → PerKind
add_kinds [] v = v
add_kinds (k ∷ ks) v = add_kinds ks (add_kind k v)

-- _trip
unfoldable pub trip : List Kind → ℕ → Guard → Guard
trip kinds now g =
    let counters = g.state.counters in
    record g {
      paused_by_guard = true;
      paused_since = now;
      capturing = false;
      state = record g.state {
        paused = true;
        reason = kinds;
        counters = record counters {
          trips = suc counters.trips;
          by_kind = add_kinds kinds counters.by_kind;
        };
      };
    }

-- _resume. A pause since 0 is none.
unfoldable pub resume : ℕ → Guard → Guard
resume now g =
    let counters = g.state.counters in
    let paused_for = if nat_beq g.paused_since 0 then 0 else now - g.paused_since in
    record g {
      paused_by_guard = false;
      paused_since = 0;
      capturing = true;
      state = record g.state {
        paused = false;
        reason = [];
        counters = record counters { paused_seconds = counters.paused_seconds + paused_for };
      };
    }

-- _persist: a write that fails leaves the state in memory for a later sample.
unfoldable pub persist : Bool → ℕ → Guard → Guard
persist writes now g = if writes then record g { stored = g.state; last_write = now } else g

abbrev pub is_nonempty : List Kind → Bool
is_nonempty [] = false
is_nonempty (k ∷ ks) = true

abbrev pub has_cooled : Config → ℕ → Guard → Bool
has_cooled c now g = leb c.cooldown_seconds (now - g.paused_since)

-- `sample`, first: what is measured, and the counts.
unfoldable pub observe : Config → PerKind → Guard → Guard
unfolding count_all
observe c measured g = record g {
  over = count_all c.limits measured g.over;
  state = record g.state { measured = measured };
}

-- `sample`, then: trip or resume. The second part tells whether the state changed.
unfoldable pub decide : Config → PerKind → ℕ → Guard → Guard × Bool
unfolding exceeded_of below_resume trip resume
decide c measured now g =
    let exceeded = exceeded_of g.over in
    if is_nonempty exceeded && not g.paused_by_guard
    then (trip exceeded now g, true)
    else (if g.paused_by_guard
          && has_cooled c now g
          && below_resume c.limits measured c.resume_percent
        then (resume now g, true)
        else (g, false))

unfoldable pub sample : Config → PerKind → Bool → ℕ → Guard → Guard
unfolding observe decide persist
sample c measured writes now g =
    let (g', changed) = decide c measured now (observe c measured g) in
    if changed || leb write_every_seconds (now - g'.last_write) then persist writes now g' else g'

-- `start` in a new process: a pause that another one left is cleared.
unfoldable pub start : GuardState → Bool → Guard
start stored capturing =
    let state = if stored.paused then record stored { paused = false; reason = [] } else stored in
    record {
      over = none_of_each;
      paused_by_guard = false;
      paused_since = 0;
      state = state;
      stored = state;
      last_write = 0;
      capturing = capturing;
    }

unfoldable pub reset_counters : Bool → ℕ → Guard → Guard
unfolding persist
reset_counters writes now g =
    persist writes now (record g { state = record g.state { counters = no_counters } })

-- What the guard lives through: samples, resets, and an operator who stops and starts the sniffer.
pub data Event : Type 0 where
  samples : Config → PerKind → Bool → ℕ → Event
  resets : Bool → ℕ → Event
  operator_stops operator_starts : Event

unfoldable pub step : Guard → Event → Guard
unfolding sample reset_counters
step g (samples c measured writes now) = sample c measured writes now g
step g (resets writes now) = reset_counters writes now g
step g operator_stops = record g { capturing = false }
step g operator_starts = record g { capturing = true }

unfoldable pub run : Guard → List Event → Guard
unfolding step
run g [] = g
run g (e ∷ events) = run (step g e) events
