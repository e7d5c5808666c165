-- ===== src/Anomaly/Floods.antt =====
-- sniff4hound/anomaly.py: what the flood detectors report, against a detector that keeps every event.
use sniff4hound.Prelude.{
  ℕ, ◌+◌, ◌≤◌, ◌≡◌, refl, sym, ap, ◌∙◌, subst, Bool, true, false, not, List, [], ◌∷◌, ◌++◌, arith,
  leb, if◌then◌else◌, length, keep, All, get_or, ◌==◌, inl, inr, Bool-cases, All-append, number_eq,
}
use mathlib.Core.Path.{ap₂, fun_ext}
use sniff4hound.Prelude.Dict.{Dict, lookup, insert, lookup-insert}
use sniff4hound.Prelude.Text.{Text, list_eq}
use sniff4hound.Prelude.Window.{Rising, popleft_while-keep, Rising-snoc, All-map}
use sniff4hound.Anomaly.Detectors.{Flood, is_before, slide, record_event}

-- The specification: every event of a key since its last alarm, and the alarm when as many as the
-- threshold of them are within the window.
abbrev pub is_recent : ℕ → ℕ → ℕ → Bool
is_recent window now time = leb now (time + window)

abbrev pub History : Type 0
History = Dict Text (List ℕ)

abbrev pub note_event : ℕ → ℕ → History → Text → ℕ → History × Bool
note_event window threshold h key now =
    let seen = get_or (lookup key h) [] ++ now ∷ [] in
    if leb threshold (length (keep (is_recent window now) seen))
    then (insert key [] h, true)
    else (insert key seen h, false)

abbrev pub history_alarms : ℕ → ℕ → History → List (Text × ℕ) → List Bool
history_alarms window threshold h [] = []
history_alarms window threshold h ((key, now) ∷ events) =
    let (h', alarm) = note_event window threshold h key now in
    alarm ∷ history_alarms window threshold h' events

abbrev pub alarms : Flood → List (Text × ℕ) → List Bool
alarms d [] = []
alarms d ((key, now) ∷ events) =
    let (d', alarm) = record_event d key now in alarm ∷ alarms d' events

-- The clock does not go back.
abbrev pub InTime {ℓ} : {A : Type ℓ} → ℕ → List (A × ℕ) → Type 0
InTime last [] = Unit
InTime last ((key, now) ∷ events) = (last ≤ now) × InTime now events

module _ {ℓ} {A : Type ℓ} where
  keep-append : (p : A → Bool) (xs ys : List A) → keep p (xs ++ ys) ≡ keep p xs ++ keep p ys
  keep-append p [] ys = refl
  keep-append p (x ∷ xs) ys = elim (Bool-cases (p x)) [
    | inl h ↦ rw h (ap (◌∷◌ x) (keep-append p xs ys))
    | inr h ↦ rw h (keep-append p xs ys)
  ]

  keep-keep :
      (p q : A → Bool) (xs : List A)
      → ((x : A) → q x ≡ true → p x ≡ true)
      → keep q (keep p xs) ≡ keep q xs
  keep-keep p q [] h = refl
  keep-keep p q (x ∷ xs) h = elim (Bool-cases (q x)) [
    | inl k ↦ rw (k, h x k, k) (ap (◌∷◌ x) (keep-keep p q xs h))
    | inr k ↦ elim (Bool-cases (p x)) [
      | inl l ↦ rw (l, k) (keep-keep p q xs h)
      | inr l ↦ rw (l, k) (keep-keep p q xs h)
    ]
  ]

  All-keep {κ} : (P : A → Type κ) (p : A → Bool) (xs : List A) → All P xs → All P (keep p xs)
  All-keep P p [] h = h
  All-keep P p (x ∷ xs) h = elim (Bool-cases (p x)) [
    | inl k ↦ rw k (h.0, All-keep P p xs h.1)
    | inr k ↦ rw k (All-keep P p xs h.1)
  ]

Rising-keep : (p : ℕ → Bool) (xs : List ℕ) → Rising xs → Rising (keep p xs)
Rising-keep p [] h = h
Rising-keep p (x ∷ xs) h = elim (Bool-cases (p x)) [
  | inl k ↦ rw k (All-keep (λ y. x ≤ y) p xs h.0, Rising-keep p xs h.1)
  | inr k ↦ rw k (Rising-keep p xs h.1)
]

-- The deque of a key holds the events of its history that were recent at the key's last event.
record Tracks (window last : ℕ) (deque history : List ℕ) : Type 0 where
  at : ℕ
  past : at ≤ last
  rising : Rising history
  bounded : All (λ t. t ≤ at) history
  kept : deque ≡ keep (is_recent window at) history

not_before : (window now time : ℕ) → not (is_before window now time) ≡ is_recent window now time
not_before window now time = ground arith

slide-keep :
    (window now : ℕ) (events : List ℕ)
    → Rising events
    → All (λ t. t ≤ now) events
    → slide window now events ≡ keep (is_recent window now) (events ++ now ∷ [])
slide-keep window now events r b =
    popleft_while-keep (is_before window now) (events ++ now ∷ []) (λ s t le h. ground arith)
      (Rising-snoc events now r b)
    ∙ ap (λ p. keep p (events ++ now ∷ [])) (fun_ext (not_before window now))

slide-Tracks :
    (window last now : ℕ) (deque history : List ℕ)
    → last ≤ now
    → Tracks window last deque history
    → (slide window now deque ≡ keep (is_recent window now) (history ++ now ∷ []))
      × Tracks window now (slide window now deque) (history ++ now ∷ [])
slide-Tracks window last now deque history le t =
    let p = is_recent window t.at in
    let q = is_recent window now in
    let early : All (λ s. s ≤ now) history =
      All-map {Q = λ s. s ≤ now} (λ s h. omega (arith, t.past)) history t.bounded in
    let kept : slide window now (keep p history) ≡ keep q (history ++ now ∷ []) =
      slide-keep window now (keep p history) (Rising-keep p history t.rising)
        (All-keep (λ s. s ≤ now) p history early)
      ∙ keep-append q (keep p history) (now ∷ [])
      ∙ ap (λ l. l ++ keep q (now ∷ [])) (keep-keep p q history (λ s h. ground (arith, t.past)))
      ∙ sym (keep-append q history (now ∷ [])) in
    let slid = ap (slide window now) t.kept ∙ kept in
    (
      slid,
      record {
        at = now;
        past = omega arith;
        rising = Rising-snoc history now t.rising early;
        bounded = All-append (λ s. s ≤ now) history (now ∷ []) early (omega arith, tt);
        kept = slid;
      },
    )

Tracks-nil : (window last : ℕ) → Tracks window last [] []
Tracks-nil window last = record {
  at = 0;
  past = omega arith;
  rising = tt;
  bounded = tt;
  kept = refl;
}

Tracks-later :
    (window last now : ℕ) (deque history : List ℕ)
    → last ≤ now
    → Tracks window last deque history
    → Tracks window now deque history
Tracks-later window last now deque history le t = record {
  at = t.at;
  past = omega (arith, t.past);
  rising = t.rising;
  bounded = t.bounded;
  kept = t.kept;
}

-- Every key's deque tracks its history.
abbrev TracksAll : ℕ → ℕ → Dict Text (List ℕ) → History → Type 0
TracksAll window last events h =
    (key : Text) → Tracks window last (get_or (lookup key events) []) (get_or (lookup key h) [])

insert-TracksAll :
    (window last now : ℕ) (events : Dict Text (List ℕ)) (h : History) (key : Text)
    (deque history : List ℕ)
    → last ≤ now
    → TracksAll window last events h
    → Tracks window now deque history
    → TracksAll window now (insert key deque events) (insert key history h)
insert-TracksAll window last now events h key deque history le all t other =
    rw (lookup-insert key other deque events, lookup-insert key other history h)
      (elim (Bool-cases (key == other)) [
        | inl same ↦ rw same t
        | inr differs ↦ rw differs (Tracks-later window last now _ _ le (all other))
      ])

module _ (window threshold : ℕ) where
  abbrev flood_of : Dict Text (List ℕ) → Flood
  flood_of events = record { window_seconds = window; threshold = threshold; events = events }

  -- One event: the same answer, and the deques still track the histories.
  record_event-TracksAll :
      (last now : ℕ) (events : Dict Text (List ℕ)) (h : History) (key : Text)
      → last ≤ now
      → TracksAll window last events h
      → ((record_event (flood_of events) key now).1 ≡ (note_event window threshold h key now).1)
        × ((record_event (flood_of events) key now).0
            ≡ flood_of (record_event (flood_of events) key now).0.events)
        × TracksAll window now
            (record_event (flood_of events) key now).0.events
            (note_event window threshold h key now).0
  unfolding record_event
  record_event-TracksAll last now events h key le all =
      let deque = get_or (lookup key events) [] in
      let history = get_or (lookup key h) [] in
      let (slid, tracks) = slide-Tracks window last now deque history le (all key) in
      elim (Bool-cases
        (leb threshold (length (keep (is_recent window now) (history ++ now ∷ []))))) [
          | inl full ↦
              rw (slid, full)
                (
                  refl,
                  refl,
                  insert-TracksAll window last now events h key [] [] le all
                      (Tracks-nil window now),
                )
          | inr room ↦
              rw (slid, room)
                (
                  refl,
                  refl,
                  insert-TracksAll window last now events h key _ _ le all
                      (subst (λ l. Tracks window now l (history ++ now ∷ [])) slid tracks),
                )
        ]

  alarms-Tracks :
      (last : ℕ) (events : Dict Text (List ℕ)) (h : History) (packets : List (Text × ℕ))
      → InTime last packets
      → TracksAll window last events h
      → alarms (flood_of events) packets ≡ history_alarms window threshold h packets
  alarms-Tracks last events h [] t all = refl
  alarms-Tracks last events h ((key, now) ∷ packets) t all =
      let (same, shape, tracks) = record_event-TracksAll last now events h key t.0 all in
      let d' = (record_event (flood_of events) key now).0 in
      let rest =
        alarms-Tracks now d'.events (note_event window threshold h key now).0 packets t.1 tracks in
      ap₂ (◌∷◌) same (ap (λ d. alarms d packets) shape ∙ rest)

  -- A new detector with any window and threshold, fed with events under any keys whose times do not
  -- fall, raises an alarm at exactly those events at which a detector that forgets nothing does: the
  -- one that keeps every event of a key since the key's last alarm and counts those that are not
  -- older than the window.
  pub alarms-history_alarms :
      (packets : List (Text × ℕ))
      → InTime 0 packets
      → alarms (record { window_seconds = window; threshold = threshold; events = [] }) packets
        ≡ history_alarms window threshold [] packets
  unfolding lookup
  alarms-history_alarms packets t = alarms-Tracks 0 [] [] packets t (λ key. Tracks-nil window 0)
