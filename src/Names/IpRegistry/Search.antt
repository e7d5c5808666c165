-- ===== src/Names/IpRegistry/Search.antt =====
-- The bisection (sniff4hound/ip_registry.py, `_search`) finds what a look at every range finds.
use sniff4hound.Prelude.Window.{All-map}
use sniff4hound.Prelude.Tests.{ltb→lt, ltb-false→le}
use sniff4hound.Names.IpRegistry.{Range, starts, nth, bisect_loop, bisect_right, row_before, search}
use sniff4hound.Prelude.{
  ℕ, zero, suc, ◌+◌, ◌/◌, ◌≤◌, ◌<◌, ◌≡◌, refl, sym, Bool, false, ◌&&◌, Option, none, some, List, [],
  ◌∷◌, arith, ltb, leb, if◌then◌else◌, length, All, if_elim, number_eq, pair_eq,
}

-- The first range that the address lies in, by looking at all of them.
abbrev pub covers : ℕ → Range → Bool
covers value row = leb row.first value && leb value row.last

unfoldable pub find : ℕ → List Range → Option Range
find value [] = none
find value (row ∷ rows) = if covers value row then some row else find value rows

-- Each range begins after those before it have ended, and ends no earlier than it begins.
abbrev pub Disjoint : List Range → Type 0
Disjoint [] = Unit
Disjoint (row ∷ rows) =
    (row.first ≤ row.last) × (All (λ later. row.last < later.first) rows × Disjoint rows)

-- The index that parts a list at a value.
record Parts (xs : List ℕ) (x i : ℕ) : Type 0 where
  inside : i ≤ length xs
  low : (j : ℕ) → j < i → nth xs j ≤ x
  high : (j : ℕ) → i ≤ j → j < length xs → x < nth xs j

Sorted : List ℕ → Type 0
Sorted xs = (j k : ℕ) → j ≤ k → k < length xs → nth xs j ≤ nth xs k

bisect_loop-Parts :
    (fuel : ℕ) (a : List ℕ) (x lo hi : ℕ)
    → Sorted a
    → lo ≤ hi
    → hi ≤ length a
    → hi ≤ lo + fuel
    → ((j : ℕ) → j < lo → nth a j ≤ x)
    → ((j : ℕ) → hi ≤ j → j < length a → x < nth a j)
    → Parts a x (bisect_loop fuel a x lo hi)
unfolding bisect_loop Sorted
bisect_loop-Parts zero a x lo hi s le inside enough low high = record {
  inside = omega arith;
  low = low;
  high = λ j ge lt. high j (omega arith) lt;
}
bisect_loop-Parts (suc fuel) a x lo hi s le inside enough low high =
    let mid = (lo + hi) / 2 in
    let below = bisect_loop fuel a x lo mid in
    let above = bisect_loop fuel a x (mid + 1) hi in
    if_elim {x = if ltb x (nth a mid) then below else above} {y = lo} (Parts a x) (ltb lo hi)
      (λ going.
        let gap : lo < hi = ltb→lt lo hi going in
        let from : lo ≤ mid = omega (arith, gap) in
        let before : mid < hi = omega (arith, gap) in
        if_elim {x = below} {y = above} (Parts a x) (ltb x (nth a mid))
          (λ less.
            bisect_loop-Parts fuel a x lo mid s from (omega arith) (omega arith) low
              (λ j ge lt. omega (arith, s mid j ge lt, ltb→lt x (nth a mid) less)))
          (λ more.
            bisect_loop-Parts fuel a x (mid + 1) hi s (omega arith) inside (omega arith)
              (λ j lt.
                omega (arith, s j mid (omega arith) (omega arith), ltb-false→le x (nth a mid) more))
              high))
      (λ over. record {
        inside = ground arith;
        low = low;
        high = λ j ge lt. high j (ground arith) lt;
      })

bisect_right-Parts : (a : List ℕ) (x : ℕ) → Sorted a → Parts a x (bisect_right a x)
unfolding bisect_right
bisect_right-Parts a x s =
    bisect_loop-Parts (length a) a x 0 (length a) s (omega arith) (omega arith) (omega arith)
      (λ j lt. absurd (omega arith)) (λ j ge lt. absurd (omega arith))

later_nth :
    (from : ℕ) (rows : List Range) (k : ℕ)
    → All (λ row. from ≤ row.first) rows
    → k < length (starts rows)
    → from ≤ nth (starts rows) k
later_nth from [] k h lt = absurd (omega arith)
later_nth from (row ∷ rows) zero h lt = h.0
later_nth from (row ∷ rows) (suc k) h lt = later_nth from rows k h.1 (omega arith)

Disjoint-Sorted : (rows : List Range) → Disjoint rows → Sorted (starts rows)
unfolding Sorted
Disjoint-Sorted [] d j k le lt = absurd (omega arith)
Disjoint-Sorted (row ∷ rows) d zero zero le lt = omega arith
Disjoint-Sorted (row ∷ rows) d zero (suc k) le lt =
    later_nth row.first rows k
      (All-map (λ later h. let h' : row.last < later.first = h in omega (arith, d.0, h')) rows
        d.1.0)
      (omega arith)
Disjoint-Sorted (row ∷ rows) d (suc j) zero le lt = absurd (omega arith)
Disjoint-Sorted (row ∷ rows) d (suc j) (suc k) le lt =
    Disjoint-Sorted rows d.1.1 j k (omega arith) (omega arith)

-- Before the first start nothing is found.
find_before :
    (value : ℕ) (rows : List Range)
    → ((j : ℕ) → j < length (starts rows) → value < nth (starts rows) j)
    → find value rows ≡ none
unfolding find
find_before value [] h = refl
find_before value (row ∷ rows) h =
    let first : value < row.first = h 0 (omega arith) in
    let rest = find_before value rows (λ j lt. h (suc j) (omega arith)) in
    ground (arith, first, rest)

row_before-find :
    (value : ℕ) (rows : List Range) (i : ℕ)
    → Disjoint rows
    → Parts (starts rows) value i
    → row_before i rows value ≡ find value rows
unfolding find
row_before-find value rows zero d p =
    sym (find_before value rows (λ j lt. p.high j (omega arith) lt))
row_before-find value [] (suc i) d p = absurd (omega (arith, p.inside))
row_before-find value (row ∷ rows) (suc zero) d p =
    let first : row.first ≤ value = p.low 0 (omega arith) in
    let rest = find_before value rows (λ j lt. p.high (suc j) (omega arith) (omega arith)) in
    ground (arith, first, rest)
row_before-find value (row ∷ []) (suc (suc i)) d p = absurd (omega (arith, p.inside))
row_before-find value (row ∷ next ∷ rows) (suc (suc i)) d p =
    let ended : row.last < next.first = d.1.0.0 in
    let begun : next.first ≤ value = p.low 1 (omega arith) in
    let rest = row_before-find value (next ∷ rows) (suc i) d.1.1 (record {
      inside = omega (arith, p.inside);
      low = λ j lt. p.low (suc j) (omega arith);
      high = λ j ge lt. p.high (suc j) (omega arith) (omega arith);
    }) in
    let missed : covers value row ≡ false = ground (arith, ended, begun) in rw missed rest

-- On a catalog whose ranges stand in order and do not overlap, the bisection over the starts gives,
-- for every address, the range that a look at all the rows finds, and none when it lies in a hole.
pub search-find :
    (rows : List Range) (value : ℕ)
    → Disjoint rows
    → search (starts rows) rows value ≡ find value rows
unfolding search find
search-find [] value d = refl
search-find (row ∷ rows) value d =
    row_before-find value (row ∷ rows) (bisect_right (starts (row ∷ rows)) value) d
      (bisect_right-Parts (starts (row ∷ rows)) value (Disjoint-Sorted (row ∷ rows) d))
