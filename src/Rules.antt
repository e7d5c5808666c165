-- ===== src/Rules.antt =====
-- sniff4hound/rulesets.py: when a rule matches a packet (rule_matches_packet), and the parsing of TCP
-- flags. A rule's lists hold what normalize_match leaves there, texts and natural numbers, and a packet
-- has the fields of build_base_packet. `str.upper` and `str.lower` are those of the ASCII letters.
pub mod Flags
pub mod Packet
pub mod Match
pub mod Vetoes
pub mod Groups
pub mod Examples
