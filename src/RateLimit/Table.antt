-- ===== src/RateLimit/Table.antt =====
-- The limiter's table: what a lookup finds after each call, and the cap on its size.
use sniff4hound.Prelude.{
  ℕ, zero, suc, ◌+◌, ◌≤◌, ◌<◌, ◌≡◌, ◌⊎◌, refl, Bool, not, Option, some, List, [], ◌∷◌, arith, ltb,
  leb, length, keep, min, inl, inr, Bool-cases, Option-cases, ltb→lt, leb→le, leb-false→lt, ◌==◌,
  same_refl,
}
use sniff4hound.Prelude.Dict.{
  Dict, lookup, insert, remove, length-insert_new, length-insert_known, length-remove-le,
  length-remove_known,
}
use sniff4hound.Prelude.Text.{Text, list_eq}
use sniff4hound.Prelude.Tests.{number_eq}
use sniff4hound.RateLimit.{
  Entry, Limiter, init, client_key, is_stale, oldest, evict_oldest, evict, entry, check, strike,
  register_failure, register_success, blocked_for, reset, Call, checks, fails, succeeds, asks,
  resets, step, run,
}

HasKey : Text → Dict Text Entry → Type 0
HasKey k m = (e : Entry) × (lookup k m ≡ some e)

HasKey-head : (k : Text) (e : Entry) (m : Dict Text Entry) → HasKey k ((k, e) ∷ m)
unfolding HasKey lookup
HasKey-head k e m = (e, rw (same_refl k))

HasKey-cons : (j k : Text) (e : Entry) (m : Dict Text Entry) → HasKey j m → HasKey j ((k, e) ∷ m)
unfolding HasKey lookup
HasKey-cons j k e m h = elim (Bool-cases (k == j)) [
  | inl same ↦ (e, rw same)
  | inr other ↦ (h.0, rw other h.1)
]

-- The key that `min` picks is the first candidate or a key of the table.
oldest-cases :
    (best : Text) (seen : ℕ) (m : Dict Text Entry)
    → (oldest best seen m ≡ best) ⊎ HasKey (oldest best seen m) m
unfolding oldest
oldest-cases best seen [] = inl refl
oldest-cases best seen ((k, e) ∷ m) = elim (Bool-cases (ltb e.seen_at seen)) [
  | inl older ↦ rw older (elim (oldest-cases k (min e.seen_at seen) m) [
    | inl same ↦ inr (rw same (HasKey-head k e m))
    | inr later ↦ inr (HasKey-cons _ k e m later)
  ])
  | inr newer ↦ rw newer (elim (oldest-cases best (min e.seen_at seen) m) [
    | inl same ↦ inl same
    | inr later ↦ inr (HasKey-cons _ k e m later)
  ])
]

oldest-HasKey :
    (k : Text) (e : Entry) (m : Dict Text Entry) → HasKey (oldest k e.seen_at m) ((k, e) ∷ m)
oldest-HasKey k e m = elim (oldest-cases k e.seen_at m) [
  | inl same ↦ rw same (HasKey-head k e m)
  | inr later ↦ HasKey-cons _ k e m later
]

length-remove-oldest :
    (k : Text) (e : Entry) (m : Dict Text Entry)
    → length (remove (oldest k e.seen_at m) ((k, e) ∷ m)) < length ((k, e) ∷ m)
unfolding HasKey
length-remove-oldest k e m =
    let (f, found) = oldest-HasKey k e m in length-remove_known _ f ((k, e) ∷ m) found

-- With as much fuel as there are keys the loop ends by its test: there is room for one more.
evict_oldest-lt :
    (fuel most : ℕ) (m : Dict Text Entry)
    → 0 < most
    → length m ≤ fuel
    → length (evict_oldest fuel most m) < most
unfolding evict_oldest
evict_oldest-lt zero most m h f = omega arith
evict_oldest-lt (suc fuel) most [] h f = elim (Bool-cases (leb most 0)) [
  | inl full ↦ absurd (omega (arith, leb→le _ _ full))
  | inr free ↦ rw (free, evict_oldest) h
]
evict_oldest-lt (suc fuel) most ((k, e) ∷ m) h f =
    elim (Bool-cases (leb most (length ((k, e) ∷ m)))) [
      | inl full ↦
          rw (full, evict_oldest)
            (evict_oldest-lt fuel most (remove (oldest k e.seen_at m) ((k, e) ∷ m)) h
              (omega (arith, length-remove-oldest k e m)))
      | inr free ↦ rw (free, evict_oldest) (leb-false→lt _ _ free)
    ]

evict-lt :
    (l : Limiter) (now : ℕ) → 0 < l.max_clients → length (evict l now).clients < l.max_clients
unfolding evict
evict-lt l now h = elim (Bool-cases (ltb (length l.clients) l.max_clients)) [
  | inl room ↦ rw room (ltb→lt _ _ room)
  | inr full ↦ rw full (
      evict_oldest-lt _ l.max_clients (keep (λ c. not (is_stale l now c.1)) l.clients) h
        (omega arith))
]

-- The table holds at most `max_clients` sources.
pub record Bounded (l : Limiter) : Type 0 where
  pub positive : 0 < l.max_clients
  pub capped : length l.clients ≤ l.max_clients

evict-max_clients : (l : Limiter) (now : ℕ) → (evict l now).max_clients ≡ l.max_clients
unfolding evict
evict-max_clients l now = ground arith

length-insert-le :
    (k : Text) (e : Entry) (m : Dict Text Entry) → length (insert k e m) ≤ length m + 1
length-insert-le k e m = elim (Option-cases (lookup k m)) [
  | inl new ↦ omega (arith, length-insert_new k e m new)
  | inr (f, known) ↦ omega (arith, length-insert_known k e f m known)
]

-- An entry that is written back leaves the size or adds one key where there is room.
write_entry-Bounded :
    (l : Limiter) (key : Text) (now : ℕ) (e : Entry)
    → Bounded l
    → let l' = (entry l key now).0 in Bounded (record l' { clients = insert key e l'.clients })
unfolding entry
write_entry-Bounded l key now e b = elim (Option-cases (lookup key l.clients)) [
  | inl new ↦
      rw (new, entry)
        (record {
          positive = rw (evict-max_clients l now) b.positive;
          capped = omega (
            arith,
            length-insert-le key e (evict l now).clients,
            evict-lt l now b.positive,
            evict-max_clients l now,
          );
        })
  | inr (f, known) ↦
      rw (known, entry)
        (record {
          positive = b.positive;
          capped = omega (arith, length-insert_known key e f l.clients known, b.capped);
        })
]

register_failure-Bounded :
    (l : Limiter) (client : Option Text) (now : ℕ)
    → Bounded l
    → Bounded (register_failure l client now).0
unfolding register_failure
register_failure-Bounded l client now b = elim (Bool-cases l.enabled) [
  | inl on ↦
      simp (on, register_failure)
        (write_entry-Bounded l (client_key client) now
          (strike l now (entry l (client_key client) now).1).0 b)
  | inr off ↦ simp (off, register_failure) b
]

check-Bounded :
    (l : Limiter) (client : Option Text) (now : ℕ) → Bounded l → Bounded (check l client now).0
unfolding check
check-Bounded l client now b = elim (Bool-cases l.enabled) [
  | inr off ↦ simp (off, check) b
  | inl on ↦ elim (Option-cases (lookup (client_key client) l.clients)) [
    | inl new ↦ simp (on, new, check) b
    | inr (e, known) ↦
        let back =
          length-insert_known (client_key client) (record e { seen_at = now }) e l.clients known in
        elim (Bool-cases (ltb now e.blocked_until)) [
          | inl blocked ↦
              simp (on, known, blocked, check)
                (record { positive = b.positive; capped = omega (arith, back, b.capped) })
          | inr free ↦
              simp (on, known, free, check)
                (record { positive = b.positive; capped = omega (arith, back, b.capped) })
        ]
  ]
]

register_success-Bounded :
    (l : Limiter) (client : Option Text) → Bounded l → Bounded (register_success l client)
unfolding register_success
register_success-Bounded l client b = elim (Bool-cases l.enabled) [
  | inr off ↦ simp off b
  | inl on ↦ simp on (record {
    positive = b.positive;
    capped = omega (arith, length-remove-le (client_key client) l.clients, b.capped);
  })
]

step-Bounded : (l : Limiter) (c : ℕ × Call) → Bounded l → Bounded (step l c)
unfolding step blocked_for reset
step-Bounded l (now, checks client) b = check-Bounded l client now b
step-Bounded l (now, fails client) b = register_failure-Bounded l client now b
step-Bounded l (now, succeeds client) b = register_success-Bounded l client b
step-Bounded l (now, asks client) b = check-Bounded l client now b
step-Bounded l (now, resets) b = record { positive = b.positive; capped = omega arith }

-- However many sources fail, and in whatever order the calls come, the table never holds more than
-- `max_clients` of them.
pub run-Bounded : (l : Limiter) (calls : List (ℕ × Call)) → Bounded l → Bounded (run l calls)
unfolding run
run-Bounded l [] b = b
run-Bounded l (c ∷ cs) b = run-Bounded (step l c) cs (step-Bounded l c b)

-- A new limiter is bounded.
pub init-Bounded :
    (enabled : Bool) (window threshold base most clients : ℕ)
    → Bounded (init enabled window threshold base most clients)
unfolding init
init-Bounded enabled window threshold base most clients = omega arith
