-- ===== src/Names/DomainNames.antt =====
-- sniff4hound/domain_names.py: the Public Suffix List and the base domain of a name. The `idna` codec
-- is a function from a label to its ASCII form (none for a UnicodeError), and
-- `ipaddress.ip_address` a test of a text.
pub mod Suffixes
use sniff4hound.Prelude.Text.{
  Text, text, list_eq, is_empty, or_blank, strip, strip_char, lower, split, join, starts_with,
}
use sniff4hound.Prelude.{
  ℕ, zero, suc, ◌+◌, ◌-◌, ◌*◌, ◌/◌, ◌%◌, ◌^◌, ◌≤◌, ◌<◌, min, max, ◌≡◌, refl, sym, ap, ◌∙◌, subst,
  ◌≢◌, ◌↔◌, ◌⊎◌, inl, inr, Bool, true, false, not, ◌&&◌, ◌||◌, Option, none, some, List, [], ◌∷◌,
  ◌++◌, map, arith, ltb, leb, nat_beq, if◌then◌else◌, length, get_elem?, take, drop, keep, any, All,
  Bool-cases, Option-cases, if_elim, get_or, is_none, PyEq, ◌==◌, same_refl, number_eq, pair_eq,
  List-cases, length-append, length-drop, length-take, take-append-drop, drop-nil, take-nil, elem,
  set_add, All-append, All-drop, drop-drop, drop-append_le,
}

-- `b'.'`
abbrev pub dot : ℕ
dot = 46

-- The label encoded, or as it is.
abbrev pub encode_label : (Text → Option Text) → Text → Text
encode_label idna label = get_or (idna label) label

-- _ascii_name
abbrev pub onto_labels : Text → Option (List Text) → Option (List Text)
onto_labels label none = none
onto_labels label (some labels) = some (label ∷ labels)

unfoldable pub ascii_labels : (Text → Option Text) → List Text → Option (List Text)
ascii_labels idna [] = some []
ascii_labels idna (label ∷ labels) =
    let rest = onto_labels (encode_label idna label) (ascii_labels idna labels) in
    if is_empty label then none else rest

unfoldable pub ascii_name : (Text → Option Text) → Option Text → Text
ascii_name idna value =
    let name = lower (strip_char dot (strip (or_blank value))) in
    let labels = ascii_labels idna (split dot name) in
    if is_empty name || ltb 253 (length name) then [] else join dot (get_or labels [])

-- The module's globals, as sets of normalized rules.
pub record Rules : Type 0 where
  pub exact : List Text
  pub wildcard : List Text
  pub exception : List Text

unfoldable pub no_rules : Rules
no_rules = record { exact = []; wildcard = []; exception = [] }

-- Which set a line's rule goes to.
pub data RuleKind : Type 0 where
  is_exact : RuleKind
  is_wildcard : RuleKind
  is_exception : RuleKind

abbrev pub classify : Text → RuleKind × Text
classify rule =
    if starts_with (text "!") rule
    then (is_exception, drop 1 rule)
    else if starts_with (text "*.") rule
    then (is_wildcard, drop 2 rule)
    else (is_exact, rule)

abbrev pub add_to : RuleKind → Text → Rules → Rules
add_to is_exact rule r = record {
  exact = set_add rule r.exact;
  wildcard = r.wildcard;
  exception = r.exception;
}
add_to is_wildcard rule r = record {
  exact = r.exact;
  wildcard = set_add rule r.wildcard;
  exception = r.exception;
}
add_to is_exception rule r = record {
  exact = r.exact;
  wildcard = r.wildcard;
  exception = set_add rule r.exception;
}

abbrev pub add_line : (Text → Option Text) → Text → Rules → Rules
add_line idna raw r =
    let rule = strip raw in
    let kind = (classify rule).0 in
    let normalized = ascii_name idna (some ((classify rule).1)) in
    if is_empty rule || starts_with (text "//") rule
    then r
    else if is_empty normalized
    then r
    else add_to kind normalized r

-- _load, from the file's lines; a file that cannot be read has none.
unfoldable pub load_rules : (Text → Option Text) → List Text → Rules → Rules
load_rules idna [] r = r
load_rules idna (raw ∷ lines) r = load_rules idna lines (add_line idna raw r)

unfoldable pub rule_counts : Rules → ℕ × (ℕ × ℕ)
rule_counts r = (length r.exact, (length r.wildcard, length r.exception))

-- The three maxima of the loop over `range(len(labels))`.
pub record Longest : Type 0 where
  pub exception_labels : ℕ
  pub exact_labels : ℕ
  pub wildcard_labels : ℕ

-- One round, for the suffix that begins at `index`.
abbrev pub raise_to : Bool → ℕ → ℕ → ℕ
raise_to found count best = if found then max best count else best

abbrev pub round : Rules → ℕ → List Text → Longest → Longest
round r index labels best =
    let suffix = join dot labels in
    let count = length labels in
    record {
      exception_labels = raise_to (elem suffix r.exception) count best.exception_labels;
      exact_labels = raise_to (elem suffix r.exact) count best.exact_labels;
      wildcard_labels =
          raise_to (ltb 0 index && elem suffix r.wildcard) (count + 1) best.wildcard_labels;
    }

unfoldable pub longest_from : Rules → ℕ → List Text → Longest → Longest
longest_from r index [] best = best
longest_from r index (label ∷ labels) best =
    longest_from r (suc index) labels (round r index (label ∷ labels) best)

abbrev pub none_yet : Longest
none_yet = record { exception_labels = 0; exact_labels = 0; wildcard_labels = 0 }

-- How many labels the public suffix has.
unfoldable pub public_suffix_labels : Rules → List Text → ℕ
public_suffix_labels r labels =
    let best = longest_from r 0 labels none_yet in
    if nat_beq best.exception_labels 0
    then max 1 (max best.exact_labels best.wildcard_labels)
    else best.exception_labels - 1

-- registrable_domain
abbrev pub base_of : Rules → Text → List Text → Text
base_of r name labels =
    let suffix = public_suffix_labels r labels in
    if leb (length labels) suffix
    then name
    else join dot (drop (length labels - (suffix + 1)) labels)

unfoldable pub registrable_domain :
    (Text → Option Text) → (Text → Bool) → Rules → Option Text → Text
registrable_domain idna is_address r value =
    let name = ascii_name idna value in
    let labels = split dot name in
    if is_empty name
    then []
    else if is_address name || nat_beq (length labels) 1
    then name
    else base_of r name labels

-- describe
pub record Description : Type 0 where
  pub base_domain : Text
  pub subdomain : Text
  pub is_subdomain : Bool

-- s.endswith(t)
abbrev pub ends_with : Text → Text → Bool
ends_with t s = leb (length t) (length s) && drop (length s - length t) s == t

unfoldable pub describe : (Text → Option Text) → (Text → Bool) → Rules → Option Text → Description
describe idna is_address r value =
    let name = ascii_name idna value in
    let base = registrable_domain idna is_address r (some name) in
    let below =
      not (is_empty name)
      && not (is_empty base)
      && not (name == base)
      && ends_with (dot ∷ base) name in
    let subdomain = if below then take (length name - (length base + 1)) name else [] in
    record { base_domain = base; subdomain = subdomain; is_subdomain = not (is_empty subdomain) }
