-- ===== src/Pipeline.antt =====
-- sniff4hound/packet_pipeline.py: the bounded packet cache between the capture threads and the
-- processing jobs, and the validation of its settings. Each method runs under the cache's lock, so
-- it is one step of the state; `none` is the IndexError of `popleft` on an empty deque.
pub mod Bounds
pub mod Calls
pub mod Fifo
mod Examples
use sniff4hound.Prelude.{
  ℕ, zero, suc, ◌+◌, ◌-◌, ◌≤◌, ◌<◌, ◌≡◌, refl, Bool, true, false, not, ◌&&◌, Option, none, some,
  List, [], ◌∷◌, ◌++◌, arith, ltb, leb, if◌then◌else◌, length, take, drop, max,
}

pub record PacketCache {ℓ} (A : Type ℓ) : Type ℓ where
  pub items : List A
  pub limit : ℕ
  pub closed : Bool
  pub accepted : ℕ
  pub dropped : ℕ
  pub peak : ℕ

module _ {ℓ} {A : Type ℓ} where
  -- PacketCache(limit)
  pub init : ℕ → PacketCache A
  init limit = record {
    items = [];
    limit = limit;
    closed = false;
    accepted = 0;
    dropped = 0;
    peak = 0;
  }

  -- The loop of `put`: drop from the left until there is room for one more.
  pub make_room : ℕ → List A → ℕ → Option (List A × ℕ)
  make_room limit [] dropped = if leb limit 0 then none else some ([], dropped)
  make_room limit (x ∷ xs) dropped =
      let rest = make_room limit xs (dropped + 1) in
      if leb limit (length (x ∷ xs)) then rest else some (x ∷ xs, dropped)

  -- The item goes to the right end, with the counters of `put`.
  abbrev pub append_item : PacketCache A → A → List A × ℕ → PacketCache A
  append_item c x (kept, dropped) = record c {
    items = kept ++ x ∷ [];
    accepted = c.accepted + 1;
    dropped = dropped;
    peak = max c.peak (length (kept ++ x ∷ []));
  }

  pub put : PacketCache A → A → Option (PacketCache A × Bool)
  put c x = if c.closed then some (c, false) else elim (make_room c.limit c.items c.dropped) [
    | none ↦ none
    | some room ↦ some (append_item c x room, true)
  ]

  -- The loop of `get_many`, with the items taken so far.
  pub take_many : ℕ → List A → List A → List A × List A
  take_many limit taken [] = (taken, [])
  take_many limit taken (x ∷ xs) =
      let rest = take_many limit (taken ++ x ∷ []) xs in
      if ltb (length taken) limit then rest else (taken, x ∷ xs)

  pub get_many : PacketCache A → ℕ → PacketCache A × List A
  get_many c limit =
      let (taken, waiting) = take_many limit [] c.items in (record c { items = waiting }, taken)

  abbrev pub popleft : PacketCache A → List A → PacketCache A × Option A
  popleft c [] = (c, none)
  popleft c (x ∷ xs) = (record c { items = xs }, some x)

  -- `meanwhile` is what the other threads do while the caller waits on the condition.
  abbrev pub get_from :
      (PacketCache A → PacketCache A) → PacketCache A → List A → PacketCache A × Option A
  get_from meanwhile c [] =
      if c.closed then (c, none) else popleft (meanwhile c) (meanwhile c).items
  get_from meanwhile c (x ∷ xs) = popleft c (x ∷ xs)

  pub get : (PacketCache A → PacketCache A) → PacketCache A → PacketCache A × Option A
  get meanwhile c = get_from meanwhile c c.items

  -- The loop of `set_limit`.
  pub shrink : ℕ → List A → ℕ → List A × ℕ
  shrink limit [] dropped = ([], dropped)
  shrink limit (x ∷ xs) dropped =
      let rest = shrink limit xs (dropped + 1) in
      if ltb limit (length (x ∷ xs)) then rest else (x ∷ xs, dropped)

  pub set_limit : PacketCache A → ℕ → PacketCache A
  set_limit c limit =
      let (kept, dropped) = shrink limit c.items c.dropped in
      record c { items = kept; limit = limit; dropped = dropped }

  pub reset_counters : PacketCache A → PacketCache A
  reset_counters c = record c { accepted = 0; dropped = 0; peak = length c.items }

  pub close : PacketCache A → PacketCache A
  close c = record c { closed = true; items = [] }

-- A call of some thread; `get` is one that finds an item or gives up.
pub data Call {ℓ} (A : Type ℓ) : Type ℓ where
  puts : A → Call A
  gets_many : ℕ → Call A
  gets : Call A
  sets_limit : ℕ → Call A
  resets closes : Call A

module _ {ℓ} {A : Type ℓ} where
  abbrev pub to_list : Option A → List A
  to_list none = []
  to_list (some x) = x ∷ []

  abbrev pub after_put :
      A → Option (PacketCache A × Bool) → Option (PacketCache A × List A × List A)
  after_put x none = none
  after_put x (some (c, true)) = some (c, x ∷ [], [])
  after_put x (some (c, false)) = some (c, [], [])

  -- The state after a call, what it accepted and what it handed out.
  pub step : PacketCache A → Call A → Option (PacketCache A × List A × List A)
  unfolding get_many get set_limit reset_counters close
  step c (puts x) = after_put x (put c x)
  step c (gets_many n) = let (c', taken) = get_many c n in some (c', [], taken)
  step c gets = let (c', x) = get (λ d. d) c in some (c', [], to_list x)
  step c (sets_limit n) = some (set_limit c n, [], [])
  step c resets = some (reset_counters c, [], [])
  step c closes = some (close c, [], [])

  abbrev pub then_more :
      PacketCache A × List A × List A
      → Option (PacketCache A × List A × List A)
      → Option (PacketCache A × List A × List A)
  then_more (c, xs, ys) none = none
  then_more (c, xs, ys) (some (d, xs', ys')) = some (d, xs ++ xs', ys ++ ys')

  -- Any interleaving of the threads' calls.
  pub run : PacketCache A → List (Call A) → Option (PacketCache A × List A × List A)
  unfolding step
  run c [] = some (c, [], [])
  run c (call ∷ calls) = elim (step c call) [
    | none ↦ none
    | some (c', xs, ys) ↦ then_more (c', xs, ys) (run c' calls)
  ]
