-- ===== src/RateLimit/Failures.antt =====
-- Several failures of one source, one after the other (sniff4hound/auth.py, `register_failure`).
use mathlib.Core.List.{append-nil, append_assoc}
use sniff4hound.Prelude.{
  ℕ, ◌+◌, ◌≤◌, ◌<◌, ◌≡◌, refl, sym, ap, ◌∙◌, Bool, false, some, List, [], ◌∷◌, ◌++◌, arith, leb,
  length, lt→ltb, All, All-append, length-append,
}
use sniff4hound.Prelude.Text.{list_eq}
use sniff4hound.Prelude.Tests.{number_eq}
use sniff4hound.Prelude.Window.{popleft_while}
use sniff4hound.RateLimit.{Entry, Limiter, strike}

-- The entry after failures at the given times.
pub strike_all : Limiter → Entry → List ℕ → Entry
strike_all l e [] = e
strike_all l e (t ∷ ts) = strike_all l (strike l t e).0 ts

pub popleft_while_none :
    (test : ℕ → Bool) (xs : List ℕ) → All (λ t. test t ≡ false) xs → popleft_while test xs ≡ xs
popleft_while_none test [] h = refl
popleft_while_none test (x ∷ xs) h = rw h.0

pub still_recent :
    (window t last : ℕ) (xs : List ℕ)
    → t ≤ last
    → All (λ s. last < s + window) xs
    → All (λ s. leb (s + window) t ≡ false) xs
still_recent window t last [] h a = tt
still_recent window t last (x ∷ xs) h a =
    (let near = a.0 in ground arith, still_recent window t last xs h a.1)

-- Below the threshold, failures inside one window add up.
strike_adds :
    (l : Limiter) (e : Entry) (t last : ℕ)
    → t ≤ last
    → last < t + l.window
    → All (λ s. last < s + l.window) e.failures
    → length e.failures + 1 < l.threshold
    → strike l t e ≡ (record e { failures = e.failures ++ t ∷ [] }, some 0)
unfolding strike
strike_adds l e t last h near a few =
    let all = All-append (λ s. last < s + l.window) e.failures (t ∷ []) a (near, tt) in
    let stays =
      popleft_while_none (λ s. leb (s + l.window) t) (e.failures ++ t ∷ [])
        (still_recent l.window t last (e.failures ++ t ∷ []) h all) in
    let size = length-append e.failures (t ∷ []) in
    let short : length (e.failures ++ t ∷ []) < l.threshold = omega arith in
    rw (stays, strike) (rw (lt→ltb _ _ short, strike))

pub strike_all-failures :
    (l : Limiter) (e : Entry) (ts : List ℕ) (last : ℕ)
    → All (λ t. (t ≤ last) × (last < t + l.window)) ts
    → All (λ s. last < s + l.window) e.failures
    → length e.failures + length ts < l.threshold
    → strike_all l e ts ≡ record e { failures = e.failures ++ ts }
unfolding strike_all
strike_all-failures l e [] last h a few =
    ap (λ ts. record e { failures = ts }) (sym (append-nil e.failures))
strike_all-failures l e (t ∷ ts) last h a few =
    let one = strike_adds l e t last h.0.0 h.0.1 a (omega arith) in
    let size = length-append e.failures (t ∷ []) in
    ap (λ r. strike_all l r.0 ts) one
    ∙ strike_all-failures l (record e { failures = e.failures ++ t ∷ [] }) ts last h.1
        (All-append (λ s. last < s + l.window) e.failures (t ∷ []) a (h.0.1, tt)) (omega arith)
    ∙ ap (λ xs. record e { failures = xs }) (append_assoc e.failures (t ∷ []) ts)
