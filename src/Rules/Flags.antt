-- ===== src/Rules/Flags.antt =====
-- sniff4hound/rulesets.py: parse_tcp_flags, with the flags in the order in which they come.
use sniff4hound.Prelude.Dict.{Dict, lookup}
use sniff4hound.Prelude.Text.{Text, text, list_eq, is_empty, strip, split}
use sniff4hound.Names.IpRegistry.{upper}
use sniff4hound.Prelude.{
  ℕ, Bool, true, ◌&&◌, ◌||◌, Option, none, some, List, [], ◌∷◌, map, if◌then◌else◌, any, get_or,
  ◌==◌, number_eq, pair_eq, elem, set_add,
}

abbrev pub tcp_flag_aliases : Dict Text Text
tcp_flag_aliases =
    (text "F", text "FIN")
    ∷ (text "FIN", text "FIN")
    ∷ (text "S", text "SYN")
    ∷ (text "SYN", text "SYN")
    ∷ (text "R", text "RST")
    ∷ (text "RST", text "RST")
    ∷ (text "P", text "PSH")
    ∷ (text "PSH", text "PSH")
    ∷ (text "A", text "ACK")
    ∷ (text "ACK", text "ACK")
    ∷ (text "U", text "URG")
    ∷ (text "URG", text "URG")
    ∷ (text "E", text "ECE")
    ∷ (text "ECE", text "ECE")
    ∷ (text "C", text "CWR")
    ∷ (text "CWR", text "CWR")
    ∷ []

-- The separators, each replaced by a comma.
abbrev pub to_comma : ℕ → ℕ
to_comma c = if elem c (43 ∷ 124 ∷ 47 ∷ 32 ∷ []) then 44 else c

-- A run of single letters: each of them a flag, or none at all.
abbrev pub letter_flags : Text → Option (List Text)
letter_flags [] = some []
letter_flags (c ∷ letters) = elim (lookup (c ∷ []) tcp_flag_aliases) [
  | none ↦ none
  | some flag ↦ elim (letter_flags letters) [ none ↦ none | some flags ↦ some (flag ∷ flags) ]
]

abbrev pub part_flags : Text → List Text
part_flags part = elim (lookup part tcp_flag_aliases) [
  | none ↦ get_or (letter_flags part) []
  | some flag ↦ flag ∷ []
]

abbrev pub add_flags : List Text → List Text → List Text
add_flags [] flags = flags
add_flags (flag ∷ more) flags = add_flags more (set_add flag flags)

abbrev pub parts_flags : List Text → List Text → List Text
parts_flags [] flags = flags
parts_flags (part ∷ parts) flags = parts_flags parts (add_flags (part_flags part) flags)

-- parse_tcp_flags of one text, and of a list. A blank part has no letters, so no flags.
unfoldable pub parse_tcp_flags : Text → List Text
parse_tcp_flags value =
    let name = upper (strip value) in
    if is_empty name || name == text "NONE"
    then []
    else parts_flags (split 44 (map to_comma name)) []

unfoldable pub parse_flag_list : List Text → List Text
parse_flag_list [] = []
parse_flag_list (entry ∷ entries) = add_flags (parse_flag_list entries) (parse_tcp_flags entry)

-- The relations of the sets.
abbrev pub is_subset : List Text → List Text → Bool
is_subset [] flags = true
is_subset (flag ∷ more) flags = elem flag flags && is_subset more flags

abbrev pub same_set : List Text → List Text → Bool
same_set a b = is_subset a b && is_subset b a

abbrev pub overlap : List Text → List Text → Bool
overlap a b = any (λ flag. elem flag b) a
