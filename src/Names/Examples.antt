-- ===== src/Names/Examples.antt =====
-- Lookups at concrete inputs (sniff4hound/ip_registry.py, domain_names.py and mac_vendor.py).
use sniff4hound.Prelude.Text.{
  Text, text, list_eq, strip, strip_char, lower, join, split, starts_with,
}
use sniff4hound.Names.IpRegistry.{Range, starts, search, bisect_right, bisect_loop}
use sniff4hound.Names.IpRegistry.Search.{find, search-find}
use sniff4hound.Names.DomainNames.{
  Rules, public_suffix_labels, longest_from, load_rules, no_rules, ascii_name, ascii_labels,
  registrable_domain, describe,
}
use sniff4hound.Names.DomainNames.Suffixes.{prevailing, public_suffix_labels-prevailing}
use sniff4hound.Prelude.{
  ℕ, ◌≡◌, refl, Bool, true, false, Option, none, some, List, [], ◌∷◌, arith, number_eq, pair_eq,
}

abbrev range : ℕ → ℕ → Range
range first last = record { first = first; last = last; country = none; registry = none }

-- Three ranges, with holes between them.
abbrev ranges : List Range
ranges = range 10 19 ∷ range 30 34 ∷ range 35 99 ∷ []

search-find_example : search (starts ranges) ranges 33 ≡ find 33 ranges
search-find_example = search-find ranges 33 (
  omega arith,
  ((omega arith, (omega arith, tt)), (omega arith, ((omega arith, tt), (omega arith, (tt, tt))))),
)

hit :
    (search (starts ranges) ranges 33 ≡ some (range 30 34))
    × (search (starts ranges) ranges 25 ≡ none)
unfolding search bisect_right bisect_loop
hit = (refl, refl)

-- Lines of the list, with labels that are ASCII already.
abbrev plain : Text → Option Text
plain label = some label

abbrev lines : List Text
lines =
    text "// comment" ∷ text "com" ∷ text "uk" ∷ text "co.uk" ∷ text "*.ck" ∷ text "!www.ck" ∷ []

abbrev rules : Rules
rules = record {
  exact = text "com" ∷ text "uk" ∷ text "co.uk" ∷ [];
  wildcard = text "ck" ∷ [];
  exception = text "www.ck" ∷ [];
}

rules_loaded : load_rules plain lines no_rules ≡ rules
unfolding load_rules no_rules ascii_name ascii_labels strip strip_char lower join split starts_with
rules_loaded = refl

abbrev labels : List Text
labels = text "service" ∷ text "example" ∷ text "co" ∷ text "uk" ∷ []

public_suffix_labels-prevailing_example :
    public_suffix_labels rules labels ≡ prevailing rules labels
public_suffix_labels-prevailing_example = public_suffix_labels-prevailing rules labels

abbrev no_address : Text → Bool
no_address name = false

bases :
    (registrable_domain plain no_address rules (some (text "Service.Example.co.uk."))
      ≡ text "example.co.uk")
    × ((registrable_domain plain no_address rules (some (text "a.b.ck")) ≡ text "a.b.ck")
        × (registrable_domain plain no_address rules (some (text "a.www.ck")) ≡ text "www.ck"))
unfolding registrable_domain ascii_name public_suffix_labels longest_from ascii_labels strip
    strip_char lower join split
bases = (refl, (refl, refl))

abbrev described : Option Text
described = some (text "service.example.com")

described-subdomain : (describe plain no_address rules described).is_subdomain ≡ true
unfolding describe registrable_domain ascii_name public_suffix_labels longest_from ascii_labels
    strip strip_char lower join split
described-subdomain = refl
