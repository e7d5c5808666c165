-- ===== src/Names/DomainNames/Suffixes.antt =====
-- The loop over the suffixes of a name (sniff4hound/domain_names.py, `registrable_domain`) finds the
-- rule that prevails by the Public Suffix List's own algorithm, which goes over the rules.
use sniff4hound.Prelude.Text.{Text, list_eq, is_empty, join, list_beq_iff}
use sniff4hound.Names.DomainNames.{
  Rules, Longest, dot, round, longest_from, none_yet, public_suffix_labels, describe, ends_with,
  ascii_name, registrable_domain,
}
use sniff4hound.Prelude.{
  ℕ, zero, suc, ◌+◌, ◌-◌, ◌≤◌, ◌<◌, max, ◌≡◌, refl, sym, ap, ◌∙◌, Bool, true, false, not, ◌&&◌,
  Option, some, List, [], ◌∷◌, ◌++◌, arith, leb, nat_beq, if◌then◌else◌, length, take, drop, ◌==◌,
  number_eq, pair_eq, take-append-drop, elem,
}

-- How many of the name's last labels one rule matches: all of the rule's, or none.
unfoldable pub matched : Text → List Text → ℕ
matched rule [] = 0
matched rule (label ∷ labels) =
    let rest = matched rule labels in
    if rule == join dot (label ∷ labels) then suc (length labels) else rest

-- The most labels that a rule of a set matches.
unfoldable pub best_match : List Text → List Text → ℕ
best_match [] labels = 0
best_match (rule ∷ rules) labels = max (matched rule labels) (best_match rules labels)

-- A wildcard stands for one label more, which the name must have.
abbrev pub one_more : ℕ → ℕ
one_more zero = 0
one_more (suc n) = suc (suc n)

abbrev pub past_first : List Text → List Text
past_first [] = []
past_first (label ∷ labels) = labels

-- The list's algorithm: an exception prevails, less its first label; else the matching rule with the most
-- labels, where the rule `*` always matches.
unfoldable pub prevailing : Rules → List Text → ℕ
prevailing r labels =
    let exception = best_match r.exception labels in
    let wildcard = one_more (best_match r.wildcard (past_first labels)) in
    if nat_beq exception 0 then max 1 (max (best_match r.exact labels) wildcard) else exception - 1

-- The longest suffix that is in a set.
unfoldable pub scan : List Text → List Text → ℕ
scan set [] = 0
scan set (label ∷ labels) =
    let rest = scan set labels in
    if elem (join dot (label ∷ labels)) set then suc (length labels) else rest

scan-le : (set labels : List Text) → scan set labels ≤ length labels
unfolding scan
scan-le set [] = omega arith
scan-le set (label ∷ labels) = ground (arith, scan-le set labels)

matched-le : (rule : Text) (labels : List Text) → matched rule labels ≤ length labels
unfolding matched
matched-le rule [] = omega arith
matched-le rule (label ∷ labels) = ground (arith, matched-le rule labels)

scan_rule :
    (rule : Text) (rules labels : List Text)
    → scan (rule ∷ rules) labels ≡ max (matched rule labels) (scan rules labels)
unfolding scan matched
scan_rule rule rules [] = omega arith
scan_rule rule rules (label ∷ labels) =
    ground (arith, scan_rule rule rules labels, scan-le rules labels, matched-le rule labels)

scan_none : (labels : List Text) → scan [] labels ≡ 0
unfolding scan
scan_none [] = refl
scan_none (label ∷ labels) = scan_none labels

scan-best_match : (rules labels : List Text) → scan rules labels ≡ best_match rules labels
unfolding best_match
scan-best_match [] labels = scan_none labels
scan-best_match (rule ∷ rules) labels =
    scan_rule rule rules labels ∙ ap (max (matched rule labels)) (scan-best_match rules labels)

longest_exception :
    (r : Rules) (index : ℕ) (labels : List Text) (best : Longest)
    → (longest_from r index labels best).exception_labels
      ≡ max best.exception_labels (scan r.exception labels)
unfolding longest_from scan
longest_exception r index [] best = omega arith
longest_exception r index (label ∷ labels) best = ground (
  arith,
  longest_exception r (suc index) labels (round r index (label ∷ labels) best),
  scan-le r.exception labels,
)

longest_exact :
    (r : Rules) (index : ℕ) (labels : List Text) (best : Longest)
    → (longest_from r index labels best).exact_labels ≡ max best.exact_labels (scan r.exact labels)
unfolding longest_from scan
longest_exact r index [] best = omega arith
longest_exact r index (label ∷ labels) best = ground (
  arith,
  longest_exact r (suc index) labels (round r index (label ∷ labels) best),
  scan-le r.exact labels,
)

longest_wildcard :
    (r : Rules) (index : ℕ) (labels : List Text) (best : Longest)
    → 0 < index
    → (longest_from r index labels best).wildcard_labels
      ≡ max best.wildcard_labels (one_more (scan r.wildcard labels))
unfolding longest_from scan
longest_wildcard r index [] best h = omega arith
longest_wildcard r index (label ∷ labels) best h = ground (
  arith,
  longest_wildcard r (suc index) labels (round r index (label ∷ labels) best) (omega arith),
  scan-le r.wildcard labels,
)

from_none : (n : ℕ) → max 0 n ≡ n
from_none n = omega arith

first_wildcard :
    (r : Rules) (labels : List Text)
    → (longest_from r 0 labels none_yet).wildcard_labels
      ≡ one_more (best_match r.wildcard (past_first labels))
unfolding longest_from scan
first_wildcard r [] = ap one_more (scan-best_match r.wildcard [])
first_wildcard r (label ∷ labels) =
    longest_wildcard r 1 labels (round r 0 (label ∷ labels) none_yet) (omega arith)
    ∙ from_none (one_more (scan r.wildcard labels))
    ∙ ap one_more (scan-best_match r.wildcard labels)

-- The loop over the suffixes of a name counts the labels of the public suffix that the list's algorithm
-- gives, whatever the rules and the name.
pub public_suffix_labels-prevailing :
    (r : Rules) (labels : List Text) → public_suffix_labels r labels ≡ prevailing r labels
unfolding public_suffix_labels prevailing
public_suffix_labels-prevailing r labels =
    rw
      (
        longest_exception r 0 labels none_yet
            ∙ from_none (scan r.exception labels)
            ∙ scan-best_match r.exception labels,
        longest_exact r 0 labels none_yet
            ∙ from_none (scan r.exact labels)
            ∙ scan-best_match r.exact labels,
        first_wildcard r labels,
      )
      refl

and_right : (a b : Bool) → (a && b) ≡ true → b ≡ true
and_right a b h = ground arith

ends_with-parts : (t s : Text) → ends_with t s ≡ true → take (length s - length t) s ++ t ≡ s
ends_with-parts t s h =
    let fits : drop (length s - length t) s ≡ t =
      (list_beq_iff (drop (length s - length t) s) t).0
        (and_right (leb (length t) (length s)) (drop (length s - length t) s == t) h) in
    ap (take (length s - length t) s ++◌) (sym fits) ∙ take-append-drop (length s - length t) s

cut_parts :
    (name base : Text) (below : Bool)
    → (below ≡ true → ends_with (dot ∷ base) name ≡ true)
    → not (is_empty (if below then take (length name - (length base + 1)) name else [])) ≡ true
    → (if below then take (length name - (length base + 1)) name else []) ++ dot ∷ base ≡ name
cut_parts name base true ends h =
    rw
      (let e : length name - (length base + 1) ≡ length name - suc (length base) = omega arith in e)
      (ends_with-parts (dot ∷ base) name (ends refl))
cut_parts name base false ends h = absurd (cc h)

-- A name is its subdomain, a dot and its base domain, when it has a subdomain.
pub describe-parts :
    (idna : Text → Option Text) (is_address : Text → Bool) (r : Rules) (value : Option Text)
    → (describe idna is_address r value).is_subdomain ≡ true
    → (describe idna is_address r value).subdomain
        ++ dot ∷ (describe idna is_address r value).base_domain
      ≡ ascii_name idna value
unfolding describe
describe-parts idna is_address r value h =
    let name = ascii_name idna value in
    let base = registrable_domain idna is_address r (some name) in
    let others = not (is_empty name) && not (is_empty base) && not (name == base) in
    cut_parts name base (others && ends_with (dot ∷ base) name)
      (λ below. and_right others (ends_with (dot ∷ base) name) below) h
