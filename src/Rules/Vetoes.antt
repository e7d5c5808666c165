-- ===== src/Rules/Vetoes.antt =====
-- What keeps a rule from matching, whatever else it asks for (sniff4hound/rulesets.py,
-- rule_matches_packet).
use sniff4hound.Prelude.Text.{
  Text, list_eq, list_beq_iff, is_empty, starts_with, strip, lower, contains,
}
use sniff4hound.Prelude.Print.{decimal}
use sniff4hound.Rules.Packet.{Packet, Criteria, Match, Matches, match, no_more, also}
use sniff4hound.Rules.Match.{
  Rule, without_0x, transport_of, number_matches, regex_matches_any, given, stripped_items, nonzero,
  normalize_protocol_name, protocols_match, ports_match, port_regex_matches, addresses_match,
  protocol_regex_matches, payload_matches, is_http_response_packet, criteria_match, matches,
  all_match, any_match, is_group, rule_matches_packet, build_packet_text, finds_any,
}
use sniff4hound.Prelude.{
  ◌≡◌, refl, Bool, true, false, not, [], ◌∷◌, map, arith, any, number_eq, pair_eq, elem, keep, List,
  ◌==◌, ◌≢◌, inl, inr, Bool-cases, if_elim,
}

-- A match among those of a group.
pub data IsMember (m : Match) : Matches → Type 0 where
  first : {ms : Matches} → IsMember m (also m ms)
  later : {other : Match} {ms : Matches} → IsMember m ms → IsMember m (also other ms)

-- A pattern of a list that is found in one of the values that are not blank.
pub record Found (search : Text → Text → Bool) (patterns values : List Text) : Type 0 where
  pub pattern : Text
  pub value : Text
  pub listed : elem pattern (stripped_items patterns) ≡ true
  pub offered : elem value values ≡ true
  pub given_value : is_empty value ≡ false
  pub hits : search pattern value ≡ true

-- One exclusion of a match that a packet meets.
pub data Excluded (search : Text → Text → Bool) (p : Packet) (packet_text : Text) (c : Criteria)
    : Type 0 where
  response :
      c.request_only ≡ true → is_http_response_packet p ≡ true → Excluded search p packet_text c
  protocol :
      elem
          (normalize_protocol_name p.proto)
          (map normalize_protocol_name (given c.exclude_protocols))
        ≡ true
      → Excluded search p packet_text c
  transport :
      is_empty (transport_of p) ≡ false
      → elem (transport_of p) (map normalize_protocol_name (given c.exclude_protocols)) ≡ true
      → Excluded search p packet_text c
  ip_version :
      elem p.ip_version (nonzero c.exclude_ip_versions) ≡ true → Excluded search p packet_text c
  eth_type : elem p.eth_type (nonzero c.exclude_eth_types) ≡ true → Excluded search p packet_text c
  from_port : elem p.src_port (nonzero c.exclude_ports) ≡ true → Excluded search p packet_text c
  to_port : elem p.dst_port (nonzero c.exclude_ports) ≡ true → Excluded search p packet_text c
  src_port : elem p.src_port (nonzero c.exclude_src_ports) ≡ true → Excluded search p packet_text c
  dst_port : elem p.dst_port (nonzero c.exclude_dst_ports) ≡ true → Excluded search p packet_text c
  port_pattern :
      Found search c.exclude_port_regex (decimal p.src_port ∷ decimal p.dst_port ∷ [])
      → Excluded search p packet_text c
  from_address :
      elem (lower (strip p.src_ip)) (map lower (stripped_items c.exclude_ips)) ≡ true
      → Excluded search p packet_text c
  to_address :
      elem (lower (strip p.dst_ip)) (map lower (stripped_items c.exclude_ips)) ≡ true
      → Excluded search p packet_text c
  address_pattern :
      Found search c.exclude_ip_regex (lower (strip p.src_ip) ∷ lower (strip p.dst_ip) ∷ [])
      → Excluded search p packet_text c
  protocol_pattern :
      Found search c.exclude_protocol_regex (normalize_protocol_name p.proto ∷ transport_of p ∷ [])
      → Excluded search p packet_text c
  content :
      (needle : Text)
      → elem needle (map lower (given c.exclude_payload_contains)) ≡ true
      → contains needle packet_text ≡ true
      → Excluded search p packet_text c
  beginning :
      (prefix : Text)
      → elem prefix (map (λ item. without_0x (lower item)) (given c.exclude_payload_prefix_hex))
        ≡ true
      → starts_with prefix (lower p.payload_hex) ≡ true
      → Excluded search p packet_text c
  content_pattern :
      (pattern : Text)
      → elem pattern (stripped_items c.payload_regex_exclude) ≡ true
      → search pattern packet_text ≡ true
      → Excluded search p packet_text c

-- What keeps a match from matching: an exclusion of its own, or one of its groups.
pub data Veto (search : Text → Text → Bool) (p : Packet) (packet_text : Text) : Match → Type 0 where
  excluded :
      {c : Criteria} {all any_of none_of : Matches}
      → Excluded search p packet_text c
      → Veto search p packet_text (match c all any_of none_of)
  in_none :
      {c : Criteria} {all any_of none_of : Matches} (m : Match)
      → IsMember m none_of
      → matches search p packet_text m ≡ true
      → Veto search p packet_text (match c all any_of none_of)
  not_all :
      {c : Criteria} {all any_of none_of : Matches} (m : Match)
      → IsMember m all
      → matches search p packet_text m ≡ false
      → Veto search p packet_text (match c all any_of none_of)
  none_of_any :
      {c : Criteria} {all any_of none_of : Matches}
      → any_of ≢ no_more
      → ((m : Match) → IsMember m any_of → matches search p packet_text m ≡ false)
      → Veto search p packet_text (match c all any_of none_of)

any-elem :
    (test : Text → Bool) (item : Text) (items : List Text)
    → elem item items ≡ true
    → test item ≡ true
    → any test items ≡ true
any-elem test item [] h k = absurd (cc h)
any-elem test item (other ∷ items) h k = elim (Bool-cases (other == item)) [
  | inl same ↦ let e : other ≡ item = (list_beq_iff other item).0 same in rw (e, k) refl
  | inr differs ↦ let rest = any-elem test item items (rw differs at h) k in ground (arith, rest)
]

elem-keep :
    (test : Text → Bool) (item : Text) (items : List Text)
    → elem item items ≡ true
    → test item ≡ true
    → elem item (keep test items) ≡ true
elem-keep test item [] h k = absurd (cc h)
elem-keep test item (other ∷ items) h k = elim (Bool-cases (other == item)) [
  | inl same ↦
      let e : other ≡ item = (list_beq_iff other item).0 same in
      rw e (rw k (rw (list_same item) refl))
  | inr differs ↦
      let rest = elem-keep test item items (rw differs at h) k in
      if_elim {x = other ∷ keep test items} {y = keep test items} (λ l. elem item l ≡ true)
        (test other) (λ kept. rw differs rest) (λ left. rest)
]
  where
    list_same : (s : Text) → (s == s) ≡ true
    list_same s = (list_beq_iff s s).1 refl

module _ (search : Text → Text → Bool) where
  finds_any-elem :
      (patterns values : List Text) (pattern value : Text)
      → elem pattern (stripped_items patterns) ≡ true
      → elem value values ≡ true
      → search pattern value ≡ true
      → finds_any search patterns values ≡ true
  finds_any-elem patterns values pattern value listed offered hits =
      any-elem (λ pattern. any (search pattern) values) pattern (stripped_items patterns) listed
        (any-elem (search pattern) value values offered hits)

  Found-regex :
      (patterns values : List Text)
      → Found search patterns values
      → regex_matches_any search patterns values ≡ true
  Found-regex patterns values f =
      finds_any-elem patterns (keep (λ v. not (is_empty v)) values) f.pattern f.value f.listed
        (elem-keep (λ v. not (is_empty v)) f.value values f.offered (rw f.given_value refl)) f.hits

-- Where a test stands in the conjunction of a match's criteria.
module _ (search : Text → Text → Bool) (c : Criteria) (all any_of : Matches) (p : Packet)
    (packet_text : Text) where
  Refused : Type 0
  Refused = criteria_match search c all any_of p packet_text ≡ false

  protocol-refused : protocols_match c p ≡ false → Refused
  unfolding Refused criteria_match
  protocol-refused h = ground arith

  ip_version-refused :
      number_matches c.ip_versions c.exclude_ip_versions p.ip_version ≡ false → Refused
  unfolding Refused criteria_match
  ip_version-refused h = ground arith

  eth_type-refused : number_matches c.eth_types c.exclude_eth_types p.eth_type ≡ false → Refused
  unfolding Refused criteria_match
  eth_type-refused h = ground arith

  port-refused : ports_match c p ≡ false → Refused
  unfolding Refused criteria_match
  port-refused h = ground arith

  port_regex-refused : port_regex_matches search c p ≡ false → Refused
  unfolding Refused criteria_match
  port_regex-refused h = ground arith

  address-refused : addresses_match search c p ≡ false → Refused
  unfolding Refused criteria_match
  address-refused h = ground arith

  protocol_regex-refused : protocol_regex_matches search c p ≡ false → Refused
  unfolding Refused criteria_match
  protocol_regex-refused h = ground arith

  payload-refused : payload_matches search c p packet_text ≡ false → Refused
  unfolding Refused criteria_match
  payload-refused h = ground arith

  Excluded-refused : Excluded search p packet_text c → Refused
  unfolding Refused protocols_match ports_match port_regex_matches addresses_match
      protocol_regex_matches payload_matches
  Excluded-refused (response asked is) = unfold criteria_match in rw (asked, is) refl
  Excluded-refused (protocol h) = protocol-refused (ground (arith, h))
  Excluded-refused (transport given_name h) = protocol-refused (ground (arith, given_name, h))
  Excluded-refused (ip_version h) = ip_version-refused (ground (arith, h))
  Excluded-refused (eth_type h) = eth_type-refused (ground (arith, h))
  Excluded-refused (from_port h) = port-refused (ground (arith, h))
  Excluded-refused (to_port h) = port-refused (ground (arith, h))
  Excluded-refused (src_port h) = port-refused (ground (arith, h))
  Excluded-refused (dst_port h) = port-refused (ground (arith, h))
  Excluded-refused (port_pattern f) =
      let found =
        Found-regex search c.exclude_port_regex (decimal p.src_port ∷ decimal p.dst_port ∷ []) f in
      port_regex-refused (ground (arith, found))
  Excluded-refused (from_address h) = address-refused (ground (arith, h))
  Excluded-refused (to_address h) = address-refused (ground (arith, h))
  Excluded-refused (address_pattern f) =
      let found =
        Found-regex search c.exclude_ip_regex (lower (strip p.src_ip) ∷ lower (strip p.dst_ip) ∷ [])
          f in
      address-refused (ground (arith, found))
  Excluded-refused (protocol_pattern f) =
      let found =
        Found-regex search c.exclude_protocol_regex
          (normalize_protocol_name p.proto ∷ transport_of p ∷ []) f in
      protocol_regex-refused (ground (arith, found))
  Excluded-refused (content needle listed h) =
      let found =
        any-elem (λ needle. contains needle packet_text) needle
          (map lower (given c.exclude_payload_contains)) listed h in
      payload-refused (ground (arith, found))
  Excluded-refused (beginning prefix listed h) =
      let found =
        any-elem (λ prefix. starts_with prefix (lower p.payload_hex)) prefix
          (map (λ item. without_0x (lower item)) (given c.exclude_payload_prefix_hex)) listed h in
      payload-refused (ground (arith, found))
  Excluded-refused (content_pattern pattern listed h) =
      let found =
        finds_any-elem search c.payload_regex_exclude (packet_text ∷ []) pattern packet_text listed
          (rw ((list_beq_iff packet_text packet_text).1 refl) refl) h in
      payload-refused (ground (arith, found))

module _ (search : Text → Text → Bool) (p : Packet) (packet_text : Text) where
  pub any_match-IsMember :
      (m : Match) (ms : Matches)
      → IsMember m ms
      → matches search p packet_text m ≡ true
      → any_match search p packet_text ms ≡ true
  unfolding any_match
  any_match-IsMember m no_more i h = elim i [ ]
  any_match-IsMember m (also _ ms) first h = rw h
  any_match-IsMember m (also other ms) (later i) h =
      let rest = any_match-IsMember m ms i h in ground (arith, rest)

  pub all_match-IsMember :
      (m : Match) (ms : Matches)
      → IsMember m ms
      → matches search p packet_text m ≡ false
      → all_match search p packet_text ms ≡ false
  unfolding all_match
  all_match-IsMember m no_more i h = elim i [ ]
  all_match-IsMember m (also _ ms) first h = rw h
  all_match-IsMember m (also other ms) (later i) h =
      let rest = all_match-IsMember m ms i h in ground (arith, rest)

  pub any_match_none :
      (ms : Matches)
      → ((m : Match) → IsMember m ms → matches search p packet_text m ≡ false)
      → any_match search p packet_text ms ≡ false
  unfolding any_match
  any_match_none no_more h = refl
  any_match_none (also m ms) h = rw (h m first) (any_match_none ms (λ other i. h other (later i)))

  is_group-ne : (ms : Matches) → ms ≢ no_more → is_group ms ≡ true
  is_group-ne no_more h = absurd (h refl)
  is_group-ne (also m ms) h = refl

  Veto-refused : (m : Match) → Veto search p packet_text m → matches search p packet_text m ≡ false
  unfolding matches Refused
  Veto-refused (match c all any_of none_of) (excluded e) =
      rw (Excluded-refused search c all any_of p packet_text e) refl
  Veto-refused (match c all any_of none_of) (in_none m i h) =
      let hit = any_match-IsMember m none_of i h in ground (arith, hit)
  Veto-refused (match c all any_of none_of) (not_all m i h) =
      let miss = all_match-IsMember m all i h in ground (arith, miss)
  Veto-refused (match c all any_of none_of) (none_of_any some_group h) =
      let miss = any_match_none any_of h in
      let is = is_group-ne any_of some_group in ground (arith, miss, is)

-- A packet that meets an exclusion of a rule does not match it, whatever else the rule asks for: a
-- response that the rule leaves out; an excluded protocol or transport, IP version, link type, port or
-- address of either end; an excluded text or beginning of the payload; an excluded pattern found in a port,
-- an address, a protocol name or the text of the packet; a match of its group `none`; one of its group
-- `all` that does not match; or a group `any` of which none matches.
pub rule_matches_packet-Veto :
    (search : Text → Text → Bool) (limit : Text → Text) (rule : Rule) (p : Packet)
    → Veto search p (build_packet_text limit p) rule.match_of
    → rule_matches_packet search limit rule p ≡ false
unfolding rule_matches_packet
rule_matches_packet-Veto search limit rule p veto =
    let refused = Veto-refused search p (build_packet_text limit p) rule.match_of veto in
    ground (arith, refused)
