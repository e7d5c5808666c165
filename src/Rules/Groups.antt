-- ===== src/Rules/Groups.antt =====
-- What a rule matches that has groups of matches and no criteria of its own (sniff4hound/rulesets.py,
-- rule_matches_packet).
use sniff4hound.Prelude.Text.{Text, list_eq}
use sniff4hound.Rules.Flags.{parse_flag_list}
use sniff4hound.Rules.Packet.{Packet, Criteria, Match, Matches, match, no_more, also}
use sniff4hound.Rules.Match.{
  protocols_match, ports_match, port_regex_matches, addresses_match, protocol_regex_matches,
  flags_match, icmp_matches, has_criteria, payload_matches, lengths_match, criteria_match, matches,
  all_match, any_match, is_group, rule_matches_packet, build_packet_text,
}
use sniff4hound.Prelude.{
  ℕ, ◌≡◌, refl, Bool, true, false, not, ◌&&◌, ◌||◌, [], arith, ltb, length, number_eq, pair_eq, sym,
  ◌∙◌, ◌⊎◌, inl, inr, ◌↔◌, Bool-cases,
}
use sniff4hound.Rules.Vetoes.{
  IsMember, first, later, any_match-IsMember, all_match-IsMember, any_match_none,
}

-- A match without criteria of its own.
unfoldable pub no_criteria : Criteria
no_criteria = record {
  request_only = false;
  protocols = [];
  exclude_protocols = [];
  ip_versions = [];
  exclude_ip_versions = [];
  eth_types = [];
  exclude_eth_types = [];
  ports = [];
  exclude_ports = [];
  src_ports = [];
  exclude_src_ports = [];
  dst_ports = [];
  exclude_dst_ports = [];
  port_regex = [];
  exclude_port_regex = [];
  ips = [];
  exclude_ips = [];
  ip_regex = [];
  exclude_ip_regex = [];
  protocol_regex = [];
  exclude_protocol_regex = [];
  tcp_flags = [];
  tcp_flags_any = [];
  tcp_flags_all = [];
  icmp_types = [];
  icmp_codes = [];
  arp_opcodes = [];
  payload_contains = [];
  exclude_payload_contains = [];
  payload_prefix_hex = [];
  exclude_payload_prefix_hex = [];
  payload_regex = [];
  payload_regex_exclude = [];
  min_length = 0;
  max_length = 0;
  min_payload_text_length = 0;
  count_threshold = 0;
  window_seconds = 0;
}

never_below : (n : ℕ) → ltb n 0 ≡ false
never_below n = ground arith

free_protocol : (p : Packet) → protocols_match no_criteria p ≡ true
unfolding protocols_match no_criteria
free_protocol p = ground arith

group_criteria :
    (all any_of : Matches) → has_criteria no_criteria all any_of ≡ (is_group all || is_group any_of)
unfolding has_criteria no_criteria parse_flag_list
group_criteria all any_of = ground arith

regroup : (h a o n : Bool) → (h && true && true && a && o && n) ≡ (h && (a && (o && n)))
regroup h a o n = ground arith

no_criteria-groups :
    (search : Text → Text → Bool) (limit : Text → Text) (all any_of none_of : Matches) (p : Packet)
    → rule_matches_packet search limit
        (record { enabled = true; match_of = match no_criteria all any_of none_of })
        p
      ≡ ((is_group all || is_group any_of)
          && (all_match search p (build_packet_text limit p) all
              && ((not (is_group any_of) || any_match search p (build_packet_text limit p) any_of)
                  && not (any_match search p (build_packet_text limit p) none_of))))
unfolding rule_matches_packet matches criteria_match no_criteria protocols_match ports_match
    port_regex_matches addresses_match protocol_regex_matches flags_match icmp_matches has_criteria
    payload_matches lengths_match parse_flag_list
no_criteria-groups search limit all any_of none_of p =
    let text_of = build_packet_text limit p in
    rw (never_below p.size, never_below (length p.payload_text))
      (rw (free_protocol p, group_criteria all any_of)
        (regroup (is_group all || is_group any_of) (all_match search p text_of all)
          (not (is_group any_of) || any_match search p text_of any_of)
          (not (any_match search p text_of none_of))))

module _ (search : Text → Text → Bool) (p : Packet) (packet_text : Text) where
  all_match-member :
      (ms : Matches) (m : Match)
      → all_match search p packet_text ms ≡ true
      → IsMember m ms
      → matches search p packet_text m ≡ true
  unfolding all_match
  all_match-member ms m h i = elim (Bool-cases (matches search p packet_text m)) [
    | inl hit ↦ hit
    | inr miss ↦ absurd (cc (sym h ∙ all_match-IsMember search p packet_text m ms i miss))
  ]

  all_match_of :
      (ms : Matches)
      → ((m : Match) → IsMember m ms → matches search p packet_text m ≡ true)
      → all_match search p packet_text ms ≡ true
  unfolding all_match
  all_match_of no_more h = refl
  all_match_of (also m ms) h = rw (h m first) (all_match_of ms (λ other i. h other (later i)))

  any_match-witness :
      (ms : Matches)
      → any_match search p packet_text ms ≡ true
      → (m : Match) × (IsMember m ms × (matches search p packet_text m ≡ true))
  unfolding any_match
  any_match-witness no_more h = absurd (cc h)
  any_match-witness (also m ms) h = elim (Bool-cases (matches search p packet_text m)) [
    | inl hit ↦ (m, (first, hit))
    | inr miss ↦
        let (other, (i, hit)) = any_match-witness ms (rw miss at h) in (other, (later i, hit))
  ]

  -- What the groups ask of a packet.
  pub record Fulfils (all any_of none_of : Matches) : Type 0 where
    pub asks_something : ((m : Match) × IsMember m all) ⊎ ((m : Match) × IsMember m any_of)
    pub every : (m : Match) → IsMember m all → matches search p packet_text m ≡ true
    pub one :
        (any_of ≡ no_more)
        ⊎ ((m : Match) × (IsMember m any_of × (matches search p packet_text m ≡ true)))
    pub no_other : (m : Match) → IsMember m none_of → matches search p packet_text m ≡ false

  grouped : Matches → Matches → Matches → Bool
  grouped all any_of none_of =
      (is_group all || is_group any_of)
      && (all_match search p packet_text all
          && ((not (is_group any_of) || any_match search p packet_text any_of)
              && not (any_match search p packet_text none_of)))

  group-IsMember : (ms : Matches) → is_group ms ≡ true → (m : Match) × IsMember m ms
  group-IsMember no_more h = absurd (cc h)
  group-IsMember (also m ms) h = (m, first)

  IsMember-group : (ms : Matches) (m : Match) → IsMember m ms → is_group ms ≡ true
  IsMember-group no_more m i = elim i [ ]
  IsMember-group (also other ms) m i = refl

  one_of :
      (any_of : Matches)
      → (not (is_group any_of) || any_match search p packet_text any_of) ≡ true
      → (any_of ≡ no_more)
        ⊎ ((m : Match) × (IsMember m any_of × (matches search p packet_text m ≡ true)))
  one_of no_more h = inl refl
  one_of (also m ms) h = inr (any_match-witness (also m ms) h)

  grouped-Fulfils :
      (all any_of none_of : Matches)
      → grouped all any_of none_of ≡ true
      → Fulfils all any_of none_of
  unfolding grouped
  grouped-Fulfils all any_of none_of h = record {
    asks_something = elim (Bool-cases (is_group all)) [
      | inl is ↦ inl (group-IsMember all is)
      | inr is_not ↦ inr (group-IsMember any_of (ground (arith, h, is_not)))
    ];
    every = λ m i. all_match-member all m (ground (arith, h)) i;
    one = one_of any_of (ground (arith, h));
    no_other = λ m i. elim (Bool-cases (matches search p packet_text m)) [
      | inl hit ↦
          let found = any_match-IsMember search p packet_text m none_of i hit in
          absurd (ground (arith, h, found))
      | inr miss ↦ miss
    ];
  }

  Fulfils-grouped :
      (all any_of none_of : Matches)
      → Fulfils all any_of none_of
      → grouped all any_of none_of ≡ true
  unfolding grouped
  Fulfils-grouped all any_of none_of f =
      let whole = all_match_of all f.every in
      let clear = any_match_none search p packet_text none_of f.no_other in
      let some_group : (is_group all || is_group any_of) ≡ true = elim (f.asks_something) [
        | inl (m, i) ↦ rw (IsMember-group all m i) refl
        | inr (m, i) ↦ let is = IsMember-group any_of m i in ground (arith, is)
      ] in
      let hit : (not (is_group any_of) || any_match search p packet_text any_of) ≡ true =
        elim (f.one) [
          | inl nothing ↦ rw nothing refl
          | inr (m, (i, found)) ↦
              let is = any_match-IsMember search p packet_text m any_of i found in
              ground (arith, is)
        ] in
      rw (some_group, whole, hit, clear) refl

-- A rule that has only the groups `all`, `any` and `none`: it matches a packet exactly when `all` or `any`
-- has a match at all, every match of `all` matches the packet, one of `any` does unless there is none in
-- it, and no match of `none` does.
pub rule_matches_packet-groups :
    (search : Text → Text → Bool) (limit : Text → Text) (all any_of none_of : Matches) (p : Packet)
    → (rule_matches_packet search limit
          (record { enabled = true; match_of = match no_criteria all any_of none_of })
          p
        ≡ true)
      ↔ Fulfils search p (build_packet_text limit p) all any_of none_of
unfolding grouped
rule_matches_packet-groups search limit all any_of none_of p =
    let same = no_criteria-groups search limit all any_of none_of p in
    let text_of = build_packet_text limit p in
    (
      λ h. grouped-Fulfils search p text_of all any_of none_of (sym same ∙ h),
      λ f. same ∙ Fulfils-grouped search p text_of all any_of none_of f,
    )
