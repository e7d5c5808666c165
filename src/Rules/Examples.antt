-- ===== src/Rules/Examples.antt =====
-- Rules at a concrete packet (sniff4hound/rulesets.py).
use sniff4hound.Prelude.Text.{Text, text, list_eq, contains}
use sniff4hound.Rules.Packet.{Packet, Criteria, Match, Matches, match, no_more, also}
use sniff4hound.Rules.Match.{Rule, rule_matches_packet, build_packet_text}
use sniff4hound.Rules.Vetoes.{excluded, to_port, rule_matches_packet-Veto}
use sniff4hound.Rules.Groups.{no_criteria, Fulfils, rule_matches_packet-groups}
use sniff4hound.Prelude.{◌↔◌, ◌≡◌, refl, Bool, true, false, [], ◌∷◌, number_eq, pair_eq}

-- The search of a pattern without special characters.
abbrev plain_search : Text → Text → Bool
plain_search pattern value = contains pattern value

abbrev no_limit : Text → Text
no_limit s = s

abbrev packet : Packet
packet = record {
  proto = text "http";
  transport = text "tcp";
  ip_version = 4;
  eth_type = 2048;
  src_port = 40000;
  dst_port = 8080;
  size = 60;
  src_ip = text "10.0.0.5";
  dst_ip = text "10.0.0.9";
  tcp_flags = text "PSH,ACK";
  icmp_type = 0;
  icmp_code = 0;
  arp_opcode = 0;
  payload_hex = text "474554";
  payload_text = text "GET /admin HTTP/1.1";
  summary = [];
  domain = [];
  http_host = [];
  http_path = text "/admin";
  http_method = text "GET";
}

abbrev tcp_rule : Match
unfolding no_criteria
tcp_rule = match (record no_criteria { protocols = text "TCP" ∷ [] }) no_more no_more no_more

abbrev excluding : Criteria
unfolding no_criteria
excluding = record no_criteria { protocols = text "tcp" ∷ []; exclude_ports = 8080 ∷ [] }

abbrev not_8080 : Rule
not_8080 = record { enabled = true; match_of = match excluding no_more no_more no_more }

rule_matches_packet-Veto_example : rule_matches_packet plain_search no_limit not_8080 packet ≡ false
unfolding excluding no_criteria
rule_matches_packet-Veto_example =
    rule_matches_packet-Veto plain_search no_limit not_8080 packet (excluded (to_port refl))

-- A group of a rule on the transport and of a rule that does not take the port.
abbrev group : Matches
group = also tcp_rule (also (match excluding no_more no_more no_more) no_more)

rule_matches_packet-groups_example :
    (rule_matches_packet plain_search no_limit
        (record { enabled = true; match_of = match no_criteria no_more group no_more })
        packet
      ≡ true)
    ↔ Fulfils plain_search packet (build_packet_text no_limit packet) no_more group no_more
rule_matches_packet-groups_example =
    rule_matches_packet-groups plain_search no_limit no_more group no_more packet
