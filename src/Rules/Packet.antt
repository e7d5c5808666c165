-- ===== src/Rules/Packet.antt =====
-- The packets and the rules of sniff4hound/rulesets.py: the fields that rule_matches_packet reads, and the
-- entries of `match`.
use sniff4hound.Prelude.Text.{Text, list_eq}
use sniff4hound.Prelude.{ℕ, Bool, List, number_eq, pair_eq}

pub record Packet : Type 0 where
  pub proto : Text
  pub transport : Text
  pub ip_version : ℕ
  pub eth_type : ℕ
  pub src_port : ℕ
  pub dst_port : ℕ
  pub size : ℕ
  pub src_ip : Text
  pub dst_ip : Text
  pub tcp_flags : Text
  pub icmp_type : ℕ
  pub icmp_code : ℕ
  pub arp_opcode : ℕ
  pub payload_hex : Text
  pub payload_text : Text
  pub summary : Text
  pub domain : Text
  pub http_host : Text
  pub http_path : Text
  pub http_method : Text

-- The entries of a rule's `match`, but for its groups.
pub record Criteria : Type 0 where
  pub request_only : Bool
  pub protocols : List Text
  pub exclude_protocols : List Text
  pub ip_versions : List ℕ
  pub exclude_ip_versions : List ℕ
  pub eth_types : List ℕ
  pub exclude_eth_types : List ℕ
  pub ports : List ℕ
  pub exclude_ports : List ℕ
  pub src_ports : List ℕ
  pub exclude_src_ports : List ℕ
  pub dst_ports : List ℕ
  pub exclude_dst_ports : List ℕ
  pub port_regex : List Text
  pub exclude_port_regex : List Text
  pub ips : List Text
  pub exclude_ips : List Text
  pub ip_regex : List Text
  pub exclude_ip_regex : List Text
  pub protocol_regex : List Text
  pub exclude_protocol_regex : List Text
  pub tcp_flags : List Text
  pub tcp_flags_any : List Text
  pub tcp_flags_all : List Text
  pub icmp_types : List ℕ
  pub icmp_codes : List ℕ
  pub arp_opcodes : List ℕ
  pub payload_contains : List Text
  pub exclude_payload_contains : List Text
  pub payload_prefix_hex : List Text
  pub exclude_payload_prefix_hex : List Text
  pub payload_regex : List Text
  pub payload_regex_exclude : List Text
  pub min_length : ℕ
  pub max_length : ℕ
  pub min_payload_text_length : ℕ
  pub count_threshold : ℕ
  pub window_seconds : ℕ

mutual
  -- A match has criteria, and the groups `all`, `any` and `none` of further ones.
  pub data Match : Type 0 where
    match : Criteria → Matches → Matches → Matches → Match

  pub data Matches : Type 0 where
    no_more : Matches
    also : Match → Matches → Matches
