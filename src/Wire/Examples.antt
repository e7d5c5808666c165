-- ===== src/Wire/Examples.antt =====
-- The readers at concrete payloads (sniff4hound/sniffer.py).
use sniff4hound.Prelude.Text.{Text, text, list_eq, strip_char, join}
use sniff4hound.Wire.Bytes.{Bytes}
use sniff4hound.Wire.DnsName.{
  read_dns_name, read_loop, read_round, follow, name_of, extract_dns_query_name,
}
use sniff4hound.Wire.DnsMessage.{max_jumps, parse_dns_message}
use sniff4hound.Wire.Total.{read_dns_name-Inside}
use sniff4hound.Wire.RoundTrip.{encode}
use sniff4hound.Wire.Query.{IsQuery, question_names, extract_dns_query_name-parse_dns_message}
use sniff4hound.Prelude.{
  ℕ, ◌≤◌, ◌≡◌, refl, some, List, [], ◌∷◌, ◌++◌, arith, length, number_eq, pair_eq,
}

-- Two pointers to each other: a loop without end, but for the bound on the jumps.
abbrev circle : Bytes
circle = 192 ∷ 2 ∷ 192 ∷ 0 ∷ []

read_dns_name-Inside_example :
    (name : Text) × (resume : ℕ) × ((read_dns_name max_jumps circle 0 ≡ some (name, resume))
      × ((0 ≤ resume) × (resume ≤ length circle)))
read_dns_name-Inside_example = read_dns_name-Inside max_jumps circle 0 (omega arith)

circle_result : read_dns_name max_jumps circle 0 ≡ some ([], 2)
unfolding read_dns_name read_loop read_round follow name_of strip_char join
circle_result = refl

abbrev labels : List Text
labels = text "www" ∷ text "example" ∷ text "org" ∷ []

-- A header that asks one question.
abbrev header : Bytes
header = 0 ∷ 1 ∷ 1 ∷ 0 ∷ 0 ∷ 1 ∷ 0 ∷ 0 ∷ 0 ∷ 0 ∷ 0 ∷ 0 ∷ []

abbrev type_and_class : Bytes
type_and_class = 0 ∷ 1 ∷ 0 ∷ 1 ∷ []

header-IsQuery : IsQuery header labels type_and_class
unfolding encode name_of strip_char join
header-IsQuery = record {
  header_size = refl;
  asks = omega arith;
  counts = omega arith;
  labels_fit = (
    ((omega arith, omega arith), refl),
    (((omega arith, omega arith), refl), (((omega arith, omega arith), refl), tt)),
  );
  near = omega arith;
  few = omega arith;
  type_and_class = omega arith;
  printable = refl;
}

abbrev no_ipv6 : Bytes → Text
no_ipv6 rdata = []

extract_dns_query_name-parse_dns_message_example :
    (more : List Text) × ((extract_dns_query_name (header ++ (encode labels ++ type_and_class))
        ≡ name_of labels)
      × (question_names (parse_dns_message no_ipv6 (header ++ (encode labels ++ type_and_class)))
          ≡ name_of labels ∷ more))
extract_dns_query_name-parse_dns_message_example =
    extract_dns_query_name-parse_dns_message no_ipv6 header labels type_and_class header-IsQuery
