-- ===== src/Rules/Match.antt =====
-- sniff4hound/rulesets.py: rule_matches_packet, build_packet_text, _is_http_response_packet and
-- _regex_matches_any. `search` is the search of a pattern in a text, false also for a pattern that does
-- not compile and for one that takes too long; `limit` is limit_regex_subject.
use sniff4hound.Prelude.Text.{
  Text, text, list_eq, is_empty, strip, lstrip_by, is_space, lower, or_else, contains, starts_with,
}
use sniff4hound.Prelude.Print.{decimal, join_by}
use sniff4hound.Names.IpRegistry.{upper}
use sniff4hound.Rules.Flags.{parse_tcp_flags, parse_flag_list, is_subset, same_set, overlap}
use sniff4hound.Prelude.{
  ℕ, Bool, true, false, not, ◌&&◌, ◌||◌, List, [], ◌∷◌, map, ltb, nat_beq, if◌then◌else◌, length,
  take, keep, any, ◌==◌, number_eq, pair_eq, elem,
}
use sniff4hound.Rules.Packet.{Packet, Criteria, Match, Matches, match, no_more, also}

-- `[... for item in items if str(item).strip()]`, and the numbers that are not zero.
abbrev pub given : List Text → List Text
given items = keep (λ item. not (is_empty (strip item))) items

abbrev pub stripped_items : List Text → List Text
stripped_items items = map strip (given items)

abbrev pub nonzero : List ℕ → List ℕ
nonzero items = keep (λ n. not (nat_beq n 0)) items

abbrev pub normalize_protocol_name : Text → Text
normalize_protocol_name value = or_else (lower (strip value)) (text "unknown")

abbrev pub transport_of : Packet → Text
transport_of p = lower (strip p.transport)

-- The names under which a packet's protocol goes.
abbrev pub is_protocol : List Text → Packet → Bool
is_protocol names p =
    elem (normalize_protocol_name p.proto) names
    || not (is_empty (transport_of p)) && elem (transport_of p) names

-- A list that is empty asks for nothing.
abbrev pub asks {ℓ} : {A : Type ℓ} → List A → Bool → Bool
asks items found = is_empty items || found

unfoldable pub protocols_match : Criteria → Packet → Bool
protocols_match c p =
    let wanted = map normalize_protocol_name (given c.protocols) in
    let excluded = map normalize_protocol_name (given c.exclude_protocols) in
    not (is_protocol excluded p) && asks wanted (is_protocol wanted p)

abbrev pub number_matches : List ℕ → List ℕ → ℕ → Bool
number_matches wanted excluded n =
    asks (nonzero wanted) (elem n (nonzero wanted)) && not (elem n (nonzero excluded))

abbrev pub is_port : List ℕ → Packet → Bool
is_port ports p = elem p.src_port ports || elem p.dst_port ports

unfoldable pub ports_match : Criteria → Packet → Bool
ports_match c p =
    asks (nonzero c.ports) (is_port (nonzero c.ports) p)
    && not (is_port (nonzero c.exclude_ports) p)
    && number_matches c.src_ports c.exclude_src_ports p.src_port
    && number_matches c.dst_ports c.exclude_dst_ports p.dst_port

module _ (search : Text → Text → Bool) where
  -- A pattern that is found in one of the values; `_regex_matches_any` passes over the blank ones.
  abbrev pub finds_any : List Text → List Text → Bool
  finds_any patterns values = any (λ pattern. any (search pattern) values) (stripped_items patterns)

  abbrev pub regex_matches_any : List Text → List Text → Bool
  regex_matches_any patterns values = finds_any patterns (keep (λ v. not (is_empty v)) values)

  unfoldable pub port_regex_matches : Criteria → Packet → Bool
  port_regex_matches c p =
      let values = decimal p.src_port ∷ decimal p.dst_port ∷ [] in
      asks (stripped_items c.port_regex) (finds_any c.port_regex values)
      && not (regex_matches_any c.exclude_port_regex values)

  unfoldable pub addresses_match : Criteria → Packet → Bool
  addresses_match c p =
      let src = lower (strip p.src_ip) in
      let dst = lower (strip p.dst_ip) in
      let wanted = map lower (stripped_items c.ips) in
      let excluded = map lower (stripped_items c.exclude_ips) in
      asks wanted (elem src wanted || elem dst wanted)
      && not (elem src excluded || elem dst excluded)
      && asks (stripped_items c.ip_regex) (finds_any c.ip_regex (src ∷ dst ∷ []))
      && not (regex_matches_any c.exclude_ip_regex (src ∷ dst ∷ []))

  unfoldable pub protocol_regex_matches : Criteria → Packet → Bool
  protocol_regex_matches c p =
      let proto = normalize_protocol_name p.proto in
      let transport = transport_of p in
      let names = if is_empty transport then proto ∷ [] else proto ∷ transport ∷ [] in
      asks (stripped_items c.protocol_regex) (finds_any c.protocol_regex names)
      && not (regex_matches_any c.exclude_protocol_regex (proto ∷ transport ∷ []))

-- The criteria on the TCP flags; a packet whose flags are not decoded has none to compare.
unfoldable pub flags_match : Criteria → Packet → Bool
flags_match c p =
    let specs = given c.tcp_flags in
    let some_of = parse_flag_list c.tcp_flags_any in
    let all_of = parse_flag_list c.tcp_flags_all in
    let raw = strip p.tcp_flags in
    let flags = parse_tcp_flags raw in
    is_empty specs && is_empty some_of && is_empty all_of
    || normalize_protocol_name p.proto == text "tcp"
      && not (is_empty raw)
      && asks specs (any (λ spec. same_set flags (parse_tcp_flags spec)) specs)
      && asks some_of (overlap flags some_of)
      && is_subset all_of flags

unfoldable pub icmp_matches : Criteria → Packet → Bool
icmp_matches c p =
    let is_icmp = elem (normalize_protocol_name p.proto) (text "icmp" ∷ text "icmpv6" ∷ []) in
    asks c.icmp_types (is_icmp && elem p.icmp_type c.icmp_types)
    && asks c.icmp_codes (is_icmp && elem p.icmp_code c.icmp_codes)
    && asks (nonzero c.arp_opcodes) (elem p.arp_opcode (nonzero c.arp_opcodes))

abbrev pub is_group : Matches → Bool
is_group no_more = false
is_group (also m ms) = true

-- The test for a match that asks for nothing.
unfoldable pub has_criteria : Criteria → Matches → Matches → Bool
has_criteria c all any_of =
    not (is_empty (given c.protocols))
    || not (is_empty (nonzero c.ip_versions))
    || not (is_empty (nonzero c.eth_types))
    || not (is_empty (nonzero c.ports))
    || not (is_empty (nonzero c.src_ports))
    || not (is_empty (nonzero c.dst_ports))
    || not (is_empty (given c.port_regex))
    || not (is_empty (given c.ips))
    || not (is_empty (given c.ip_regex))
    || not (is_empty (given c.protocol_regex))
    || not (is_empty (given c.payload_contains))
    || not (is_empty (given c.payload_prefix_hex))
    || not (is_empty (given c.payload_regex))
    || not (is_empty (given c.tcp_flags))
    || not (is_empty (parse_flag_list c.tcp_flags_any))
    || not (is_empty (parse_flag_list c.tcp_flags_all))
    || not (is_empty c.icmp_types)
    || not (is_empty c.icmp_codes)
    || not (is_empty (nonzero c.arp_opcodes))
    || is_group all
    || is_group any_of
    || not (nat_beq c.min_length 0 && nat_beq c.max_length 0 && nat_beq c.min_payload_text_length 0)
    || not (nat_beq c.count_threshold 0) && not (nat_beq c.window_seconds 0)

unfoldable pub build_packet_text : (Text → Text) → Packet → Text
build_packet_text limit p = limit (
    lower (
      join_by (text " ") (
        keep (λ value. not (is_empty value))
          (p.summary ∷ p.payload_text ∷ p.domain ∷ p.http_host ∷ p.http_path ∷ p.http_method
            ∷ []))))

-- str.replace("0x", "")
abbrev pub without_0x : Text → Text
without_0x [] = []
without_0x (c ∷ []) = c ∷ []
without_0x (c ∷ d ∷ s) =
    let skipped = without_0x s in
    let kept = c ∷ without_0x (d ∷ s) in if nat_beq c 48 && nat_beq d 120 then skipped else kept

unfoldable pub payload_matches : (Text → Text → Bool) → Criteria → Packet → Text → Bool
payload_matches search c p packet_text =
    let needles = map lower (given c.payload_contains) in
    let excluded = map lower (given c.exclude_payload_contains) in
    let hex = lower p.payload_hex in
    let prefixes = map (λ item. without_0x (lower item)) (given c.payload_prefix_hex) in
    let excluded_prefixes =
      map (λ item. without_0x (lower item)) (given c.exclude_payload_prefix_hex) in
    asks needles (any (λ needle. contains needle packet_text) needles)
    && not (any (λ needle. contains needle packet_text) excluded)
    && asks prefixes (any (λ prefix. starts_with prefix hex) prefixes)
    && not (any (λ prefix. starts_with prefix hex) excluded_prefixes)
    && asks (stripped_items c.payload_regex) (finds_any search c.payload_regex (packet_text ∷ []))
    && not (finds_any search c.payload_regex_exclude (packet_text ∷ []))

unfoldable pub lengths_match : Criteria → Packet → Bool
lengths_match c p =
    not (ltb p.size c.min_length)
    && (nat_beq c.max_length 0 || not (ltb c.max_length p.size))
    && not (ltb (length p.payload_text) c.min_payload_text_length)

abbrev pub http_server_ports : List ℕ
http_server_ports = 80 ∷ 8000 ∷ 8008 ∷ 8080 ∷ 8081 ∷ 8888 ∷ []

unfoldable pub is_http_response_packet : Packet → Bool
is_http_response_packet p =
    upper (take 5 (lstrip_by is_space p.payload_text)) == text "HTTP/"
    || elem p.src_port http_server_ports && not (elem p.dst_port http_server_ports)

-- All that one match asks for, but for its groups.
unfoldable pub criteria_match :
    (Text → Text → Bool) → Criteria → Matches → Matches → Packet → Text → Bool
criteria_match search c all any_of p packet_text =
    not (c.request_only && is_http_response_packet p)
    && protocols_match c p
    && number_matches c.ip_versions c.exclude_ip_versions p.ip_version
    && number_matches c.eth_types c.exclude_eth_types p.eth_type
    && ports_match c p
    && port_regex_matches search c p
    && addresses_match search c p
    && protocol_regex_matches search c p
    && flags_match c p
    && icmp_matches c p
    && has_criteria c all any_of
    && payload_matches search c p packet_text
    && lengths_match c p

-- The groups: every one of `all`, one of `any` when there are some, and none of `none`.
unfoldable mutual
  pub matches : (Text → Text → Bool) → Packet → Text → Match → Bool
  matches search p packet_text (match c all any_of none_of) =
      criteria_match search c all any_of p packet_text
      && all_match search p packet_text all
      && (not (is_group any_of) || any_match search p packet_text any_of)
      && not (any_match search p packet_text none_of)

  pub all_match : (Text → Text → Bool) → Packet → Text → Matches → Bool
  all_match search p packet_text no_more = true
  all_match search p packet_text (also m ms) =
      matches search p packet_text m && all_match search p packet_text ms

  pub any_match : (Text → Text → Bool) → Packet → Text → Matches → Bool
  any_match search p packet_text no_more = false
  any_match search p packet_text (also m ms) =
      matches search p packet_text m || any_match search p packet_text ms

pub record Rule : Type 0 where
  pub enabled : Bool
  pub match_of : Match

unfoldable pub rule_matches_packet : (Text → Text → Bool) → (Text → Text) → Rule → Packet → Bool
rule_matches_packet search limit rule p =
    rule.enabled && matches search p (build_packet_text limit p) rule.match_of
