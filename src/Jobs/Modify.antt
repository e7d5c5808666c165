-- ===== src/Jobs/Modify.antt =====
-- What a change of one job does to the list of all jobs: to sums over it, to what holds of each job,
-- and to the queue of waiting jobs.
use sniff4hound.Prelude.{
  ℕ, zero, suc, ◌+◌, ◌≤◌, ◌<◌, ◌≡◌, ◌≢◌, refl, ap, ◌∙◌, Bool, true, false, not, none, some, List,
  [], ◌∷◌, ◌++◌, map, arith, nat_beq, length, get_elem?, keep, All, inl, inr, Bool-cases,
}
use sniff4hound.Jobs.Core.{Job, Phase, modify, in_phase}

module _ {R E : Type 0} where
  abbrev pub total : (Job R E → ℕ) → List (Job R E) → ℕ
  total w [] = 0
  total w (j ∷ js) = w j + total w js

  pub total-modify :
      (w : Job R E → ℕ) (f : Job R E → Job R E) (js : List (Job R E)) (i : ℕ) (j : Job R E)
      → get_elem? js i ≡ some j
      → total w (modify js i f) + w j ≡ total w js + w (f j)
  total-modify w f [] i j h = cc
  total-modify w f (k ∷ js) zero j h = let same : k ≡ j = cc in rw same (omega arith)
  total-modify w f (k ∷ js) (suc i) j h = omega (arith, total-modify w f js i j h)

  pub le-total :
      (w : Job R E → ℕ) (js : List (Job R E)) (i : ℕ) (j : Job R E)
      → get_elem? js i ≡ some j
      → w j ≤ total w js
  le-total w [] i j h = cc
  le-total w (k ∷ js) zero j h = let same : k ≡ j = cc in rw same (omega arith)
  le-total w (k ∷ js) (suc i) j h = omega (arith, le-total w js i j h)

  pub total-modify_same :
      (w : Job R E → ℕ) (f : Job R E → Job R E) (js : List (Job R E)) (i : ℕ)
      → ((j : Job R E) → w (f j) ≡ w j)
      → total w (modify js i f) ≡ total w js
  total-modify_same w f [] i h = refl
  total-modify_same w f (k ∷ js) zero h = ap (λ n. n + total w js) (h k)
  total-modify_same w f (k ∷ js) (suc i) h = ap (λ n. w k + n) (total-modify_same w f js i h)

  pub total-map_same :
      (w : Job R E → ℕ) (f : Job R E → Job R E) (js : List (Job R E))
      → ((j : Job R E) → w (f j) ≡ w j)
      → total w (map f js) ≡ total w js
  total-map_same w f [] h = refl
  total-map_same w f (k ∷ js) h = omega (arith, h k, total-map_same w f js h)

  pub total-snoc :
      (w : Job R E → ℕ) (js : List (Job R E)) (j : Job R E)
      → total w (js ++ j ∷ []) ≡ total w js + w j
  total-snoc w [] j = omega arith
  total-snoc w (k ∷ js) j = omega (arith, total-snoc w js j)

  pub modify-none :
      (f : Job R E → Job R E) (js : List (Job R E)) (i : ℕ)
      → get_elem? js i ≡ none
      → modify js i f ≡ js
  modify-none f [] i h = refl
  modify-none f (k ∷ js) zero h = cc
  modify-none f (k ∷ js) (suc i) h = ap (◌∷◌ k) (modify-none f js i h)

  pub get_elem?-modify :
      (f : Job R E → Job R E) (js : List (Job R E)) (i : ℕ) (j : Job R E)
      → get_elem? js i ≡ some j
      → get_elem? (modify js i f) i ≡ some (f j)
  get_elem?-modify f [] i j h = cc
  get_elem?-modify f (k ∷ js) zero j h = let same : k ≡ j = cc in rw same
  get_elem?-modify f (k ∷ js) (suc i) j h = get_elem?-modify f js i j h

  pub All-modify {κ} :
      (P : Job R E → Type κ) (f : Job R E → Job R E) (js : List (Job R E)) (i : ℕ)
      → ((j : Job R E) → P j → P (f j))
      → All P js
      → All P (modify js i f)
  All-modify P f [] i h a = a
  All-modify P f (k ∷ js) zero h a = (h k a.0, a.1)
  All-modify P f (k ∷ js) (suc i) h a = (a.0, All-modify P f js i h a.1)

  -- The same where the job at the index is known.
  pub All-modify_at {κ} :
      (P : Job R E → Type κ) (f : Job R E → Job R E) (js : List (Job R E)) (i : ℕ) (j : Job R E)
      → get_elem? js i ≡ some j
      → (P j → P (f j))
      → All P js
      → All P (modify js i f)
  All-modify_at P f [] i j e h a = a
  All-modify_at P f (k ∷ js) zero j e h a =
      let same : k ≡ j = cc in (rw same (h (rw same at a.0)), a.1)
  All-modify_at P f (k ∷ js) (suc i) j e h a = (a.0, All-modify_at P f js i j e h a.1)

  pub All-get_elem? {κ} :
      (P : Job R E → Type κ) (js : List (Job R E)) (i : ℕ) (j : Job R E)
      → get_elem? js i ≡ some j
      → All P js
      → P j
  All-get_elem? P [] i j e a = cc
  All-get_elem? P (k ∷ js) zero j e a = let same : k ≡ j = cc in rw same at a.0
  All-get_elem? P (k ∷ js) (suc i) j e a = All-get_elem? P js i j e a.1

  pub All-map {κ} :
      (P : Job R E → Type κ) (f : Job R E → Job R E) (js : List (Job R E))
      → ((j : Job R E) → P j → P (f j))
      → All P js
      → All P (map f js)
  All-map P f [] h a = a
  All-map P f (k ∷ js) h a = (h k a.0, All-map P f js h a.1)

  abbrev pub waits_at : List (Job R E) → ℕ → Bool
  waits_at [] i = false
  waits_at (j ∷ js) zero = in_phase Phase.waiting j
  waits_at (j ∷ js) (suc i) = waits_at js i

  -- Waiting jobs, in the order in which they were submitted.
  abbrev pub InOrder : List (Job R E) → ℕ → List ℕ → Type 0
  InOrder js low [] = Unit
  InOrder js low (i ∷ is) = (low ≤ i) × (waits_at js i ≡ true) × InOrder js (suc i) is

  waits_at-modify_ne :
      (f : Job R E → Job R E) (js : List (Job R E)) (i k : ℕ)
      → i ≢ k
      → waits_at (modify js i f) k ≡ waits_at js k
  waits_at-modify_ne f [] i k h = refl
  waits_at-modify_ne f (j ∷ js) zero zero h = absurd (h refl)
  waits_at-modify_ne f (j ∷ js) zero (suc k) h = refl
  waits_at-modify_ne f (j ∷ js) (suc i) zero h = refl
  waits_at-modify_ne f (j ∷ js) (suc i) (suc k) h = waits_at-modify_ne f js i k (λ e. h (ap suc e))

  pub waits_at-get_elem? :
      (js : List (Job R E)) (i : ℕ)
      → waits_at js i ≡ true
      → (j : Job R E) × (get_elem? js i ≡ some j) × (in_phase Phase.waiting j ≡ true)
  waits_at-get_elem? [] i h = cc
  waits_at-get_elem? (j ∷ js) zero h = (j, refl, h)
  waits_at-get_elem? (j ∷ js) (suc i) h = waits_at-get_elem? js i h

  pub get_elem?-waits_at :
      (js : List (Job R E)) (i : ℕ) (j : Job R E)
      → get_elem? js i ≡ some j
      → waits_at js i ≡ in_phase Phase.waiting j
  get_elem?-waits_at [] i j h = cc
  get_elem?-waits_at (k ∷ js) zero j h = let same : k ≡ j = cc in rw same
  get_elem?-waits_at (k ∷ js) (suc i) j h = get_elem?-waits_at js i j h

  -- A change of a job below the queue, or of one that does not wait, or one that keeps waiting jobs
  -- waiting.
  pub InOrder-modify_below :
      (f : Job R E → Job R E) (js : List (Job R E)) (i low : ℕ) (is : List ℕ)
      → i < low
      → InOrder js low is
      → InOrder (modify js i f) low is
  InOrder-modify_below f js i low [] h o = tt
  InOrder-modify_below f js i low (k ∷ is) h o = (
    o.0,
    waits_at-modify_ne f js i k (omega (arith, o.0)) ∙ o.1,
    InOrder-modify_below f js i (suc k) is (omega (arith, o.0)) o.2,
  )

  pub InOrder-modify_busy :
      (f : Job R E → Job R E) (js : List (Job R E)) (i low : ℕ) (is : List ℕ)
      → waits_at js i ≡ false
      → InOrder js low is
      → InOrder (modify js i f) low is
  InOrder-modify_busy f js i low [] h o = tt
  InOrder-modify_busy f js i low (k ∷ is) h o = (
    o.0,
    waits_at-modify_ne f js i k (λ e. cc (ap (waits_at js) e)) ∙ o.1,
    InOrder-modify_busy f js i (suc k) is h o.2,
  )

  waits_at-modify_keeps :
      (f : Job R E → Job R E) (js : List (Job R E)) (i k : ℕ)
      → ((j : Job R E) → in_phase Phase.waiting (f j) ≡ in_phase Phase.waiting j)
      → waits_at (modify js i f) k ≡ waits_at js k
  waits_at-modify_keeps f [] i k h = refl
  waits_at-modify_keeps f (j ∷ js) zero zero h = h j
  waits_at-modify_keeps f (j ∷ js) zero (suc k) h = refl
  waits_at-modify_keeps f (j ∷ js) (suc i) zero h = refl
  waits_at-modify_keeps f (j ∷ js) (suc i) (suc k) h = waits_at-modify_keeps f js i k h

  pub InOrder-modify_keeps :
      (f : Job R E → Job R E) (js : List (Job R E)) (i low : ℕ) (is : List ℕ)
      → ((j : Job R E) → in_phase Phase.waiting (f j) ≡ in_phase Phase.waiting j)
      → InOrder js low is
      → InOrder (modify js i f) low is
  InOrder-modify_keeps f js i low [] h o = tt
  InOrder-modify_keeps f js i low (k ∷ is) h o =
      (o.0, waits_at-modify_keeps f js i k h ∙ o.1, InOrder-modify_keeps f js i (suc k) is h o.2)

  pub InOrder-weaken :
      (js : List (Job R E)) (low high : ℕ) (is : List ℕ)
      → low ≤ high
      → InOrder js high is
      → InOrder js low is
  InOrder-weaken js low high [] h o = tt
  InOrder-weaken js low high (k ∷ is) h o = (omega (arith, o.0), o.1, o.2)

  -- The job at the index leaves the queue, whatever becomes of it.
  pub InOrder-discard :
      (f : Job R E → Job R E) (js : List (Job R E)) (i low : ℕ) (is : List ℕ)
      → InOrder js low is
      → InOrder (modify js i f) low (keep (λ k. not (nat_beq k i)) is)
  InOrder-discard f js i low [] o = tt
  InOrder-discard f js i low (k ∷ is) o = elim (Bool-cases (nat_beq k i)) [
    | inl same ↦ rw same (
        InOrder-weaken (modify js i f) low (suc k) _ (omega (arith, o.0))
          (InOrder-discard f js i (suc k) is o.2))
    | inr other ↦ rw other (
      o.0,
      waits_at-modify_ne f js i k (λ e. ground arith) ∙ o.1,
      InOrder-discard f js i (suc k) is o.2,
    )
  ]

  waits_at-snoc :
      (js : List (Job R E)) (j : Job R E) (k : ℕ)
      → waits_at js k ≡ true
      → waits_at (js ++ j ∷ []) k ≡ true
  waits_at-snoc [] j k h = cc
  waits_at-snoc (x ∷ js) j zero h = h
  waits_at-snoc (x ∷ js) j (suc k) h = waits_at-snoc js j k h

  waits_at_new :
      (js : List (Job R E)) (j : Job R E)
      → in_phase Phase.waiting j ≡ true
      → waits_at (js ++ j ∷ []) (length js) ≡ true
  waits_at_new [] j h = h
  waits_at_new (x ∷ js) j h = waits_at_new js j h

  waits_at-lt : (js : List (Job R E)) (k : ℕ) → waits_at js k ≡ true → k < length js
  waits_at-lt [] k h = cc
  waits_at-lt (x ∷ js) zero h = omega arith
  waits_at-lt (x ∷ js) (suc k) h = omega (arith, waits_at-lt js k h)

  -- A new job joins the list and the end of the queue.
  pub InOrder-snoc :
      (js : List (Job R E)) (j : Job R E) (low : ℕ) (is : List ℕ)
      → in_phase Phase.waiting j ≡ true
      → low ≤ length js
      → InOrder js low is
      → InOrder (js ++ j ∷ []) low (is ++ length js ∷ [])
  InOrder-snoc js j low [] h l o = (l, waits_at_new js j h, tt)
  InOrder-snoc js j low (k ∷ is) h l o =
      (o.0, waits_at-snoc js j k o.1, InOrder-snoc js j (suc k) is h (waits_at-lt js k o.1) o.2)

  waits_at-map :
      (f : Job R E → Job R E) (js : List (Job R E)) (k : ℕ)
      → ((j : Job R E) → in_phase Phase.waiting (f j) ≡ in_phase Phase.waiting j)
      → waits_at (map f js) k ≡ waits_at js k
  waits_at-map f [] k h = refl
  waits_at-map f (j ∷ js) zero h = h j
  waits_at-map f (j ∷ js) (suc k) h = waits_at-map f js k h

  pub InOrder-map :
      (f : Job R E → Job R E) (js : List (Job R E)) (low : ℕ) (is : List ℕ)
      → ((j : Job R E) → in_phase Phase.waiting (f j) ≡ in_phase Phase.waiting j)
      → InOrder js low is
      → InOrder (map f js) low is
  InOrder-map f js low [] h o = tt
  InOrder-map f js low (k ∷ is) h o =
      (o.0, waits_at-map f js k h ∙ o.1, InOrder-map f js (suc k) is h o.2)
