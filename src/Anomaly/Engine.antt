-- ===== src/Anomaly/Engine.antt =====
-- sniff4hound/anomaly.py: the declarative detector and `AnomalyEngine.evaluate`. The test whether a
-- packet matches a monitor's criteria (rulesets.py) is a parameter. `token` is the identity of the
-- monitors' dict, and the ids of the candidates are visited in the order of that dict.
use sniff4hound.Prelude.{
  ℕ, Bool, false, not, ◌&&◌, ◌||◌, Option, none, some, List, [], ◌∷◌, ◌++◌, ltb, nat_beq,
  if◌then◌else◌, length, elem, get_or, ◌==◌, number_eq,
}
use sniff4hound.Prelude.Dict.{Dict, lookup, insert}
use sniff4hound.Prelude.Text.{Text, text, lower, or_else, or_blank, is_empty, list_eq}
use sniff4hound.Prelude.Print.{decimal}
use sniff4hound.Anomaly.Detectors.{
  Packet, stripped, is_cooling, slide, ArpSpoof, Flood, PortScan, BruteForce, DhcpRogue,
  evaluate_arp, evaluate_icmp, evaluate_syn, evaluate_dns, evaluate_scan, evaluate_login,
  evaluate_dhcp,
}

-- A monitor. The numbers of its match are what `safe_int` makes of them; 0 stands for all that is
-- not positive, which the code treats alike.
pub record Monitor : Type 0 where
  pub name : Option Text
  pub enabled : Bool
  pub mode : Option Text
  pub tag : Option Text
  pub label : Option Text
  pub severity : Option Text
  pub count_threshold : ℕ
  pub window_seconds : ℕ
  pub group_by : Option Text

abbrev pub Monitors : Type 0
Monitors = Dict Text Monitor

pub record Hit : Type 0 where
  pub monitor_id : Text
  pub monitor_name : Option Text
  pub tag : Text
  pub label : Option Text
  pub severity : Text
  pub detail : Text

-- value or default, on optional texts
abbrev pub text_or : Option Text → Text → Text
text_or value default = or_else (or_blank value) default

abbrev pub either_text : Option Text → Option Text → Option Text
either_text none default = default
either_text (some []) default = default
either_text (some (c ∷ s)) default = some (c ∷ s)

unfoldable pub hit_of : Text → Monitor → Text → Hit
hit_of id m detail = record {
  monitor_id = id;
  monitor_name = m.name;
  tag = text_or m.tag id;
  label = either_text m.label m.name;
  severity = text_or m.severity (text "info");
  detail = detail;
}

abbrev pub is_stateful : Monitor → Bool
is_stateful m = lower (stripped m.mode) == text "stateful"

-- f"{ip}:{port}" if ip and port else ""
abbrev pub with_port : Text → Option ℕ → Text
with_port ip port =
    if is_empty ip || nat_beq (get_or port 0) 0
    then []
    else ip ++ text ":" ++ decimal (get_or port 0)

-- _group_key
unfoldable pub group_key : Packet → Text → Text
group_key p spec =
    let src = stripped p.src_ip in
    let dst = stripped p.dst_ip in
    if spec == text "dst_ip"
    then dst
    else (if spec == text "src_ip+dst_port"
        then with_port src p.dst_port
        else (if spec == text "dst_ip+dst_port"
            then with_port dst p.dst_port
            else (if spec == text "src_ip+dst_ip"
                then (if is_empty src || is_empty dst then [] else src ++ text "->" ++ dst)
                else src)))

-- GenericThresholdDetector
pub record Threshold : Type 0 where
  pub events : Dict Text (List ℕ)
  pub last_alert : Dict Text ℕ

abbrev pub matches_text : Text → ℕ → ℕ → Text
matches_text key n window =
    key ++ text ": " ++ decimal n ++ text "+ matches within " ++ decimal window ++ text "s"

unfoldable pub count_match : Threshold → Text → ℕ → ℕ → ℕ → Threshold × Option Text
count_match d key threshold window now =
    let events = slide window now (get_or (lookup key d.events) []) in
    let n = length events in
    let d' = record d { events = insert key events d.events } in
    if ltb n threshold || is_cooling (lookup key d.last_alert) window now
    then (d', none)
    else (record d' { last_alert = insert key now d.last_alert }, some (matches_text key n window))

unfoldable pub evaluate_threshold :
    Bool → Threshold → Packet → Monitor → ℕ → Threshold × Option Text
evaluate_threshold matched d p m now =
    let key = group_key p (text_or m.group_by (text "src_ip")) in
    if nat_beq m.count_threshold 0 || nat_beq m.window_seconds 0 || not matched || is_empty key
    then (d, none)
    else count_match d key m.count_threshold m.window_seconds now

-- AnomalyEngine
pub record Engine : Type 0 where
  pub arp : ArpSpoof
  pub icmp : Flood
  pub scan : PortScan
  pub syn : Flood
  pub login : BruteForce
  pub dns : Flood
  pub dhcp : DhcpRogue
  pub generic : Dict Text Threshold
  pub candidates : List Text
  pub source : Option ℕ
  pub arp_cooldown : ℕ
  pub dhcp_cooldown : ℕ

-- One detector's turn, with its state in the engine.

abbrev pub run_arp : Packet → ℕ → Engine → Engine × Option Text
run_arp p now e =
    let (d, hit) = evaluate_arp e.arp_cooldown e.arp p now in (record e { arp = d }, hit)

abbrev pub run_icmp : Packet → ℕ → Engine → Engine × Option Text
run_icmp p now e = let (d, hit) = evaluate_icmp e.icmp p now in (record e { icmp = d }, hit)

abbrev pub run_scan : Packet → ℕ → Engine → Engine × Option Text
run_scan p now e = let (d, hit) = evaluate_scan e.scan p now in (record e { scan = d }, hit)

abbrev pub run_syn : Packet → ℕ → Engine → Engine × Option Text
run_syn p now e = let (d, hit) = evaluate_syn e.syn p now in (record e { syn = d }, hit)

abbrev pub run_login : Packet → ℕ → Engine → Engine × Option Text
run_login p now e = let (d, hit) = evaluate_login e.login p now in (record e { login = d }, hit)

abbrev pub run_dns : Packet → ℕ → Engine → Engine × Option Text
run_dns p now e = let (d, hit) = evaluate_dns e.dns p now in (record e { dns = d }, hit)

abbrev pub run_dhcp : Packet → ℕ → Engine → Engine × Option Text
run_dhcp p now e =
    let (d, hit) = evaluate_dhcp e.dhcp_cooldown e.dhcp p now in (record e { dhcp = d }, hit)

abbrev pub add_hit : Text → Monitor → Option Text → List Hit → List Hit
add_hit id m none hits = hits
add_hit id m (some detail) hits = hits ++ hit_of id m detail ∷ []

-- The turn of a monitor's detector, if the monitor is there and wanted.
abbrev pub visit :
    (Monitor → Bool)
    → (Monitor → Engine → Engine × Option Text)
    → Text
    → Option Monitor
    → Engine × List Hit
    → Engine × List Hit
visit wanted eval id none (e, hits) = (e, hits)
visit wanted eval id (some m) (e, hits) =
    if wanted m then (let (e', hit) = eval m e in (e', add_hit id m hit hits)) else (e, hits)

abbrev pub is_enabled_stateful : Monitor → Bool
is_enabled_stateful m = m.enabled && is_stateful m

abbrev pub Turn : Type 0
Turn = Text × (Packet → ℕ → Engine → Engine × Option Text)

unfoldable pub fixed_turns : List Turn
fixed_turns =
    (text "builtin-arp-spoof", run_arp)
    ∷ (text "builtin-icmp-flood", run_icmp)
    ∷ (text "builtin-port-scan", run_scan)
    ∷ (text "builtin-syn-flood", run_syn)
    ∷ (text "builtin-brute-force-login", run_login)
    ∷ (text "builtin-dns-query-flood", run_dns)
    ∷ (text "builtin-dhcp-rogue-server", run_dhcp)
    ∷ []

unfoldable pub run_fixed : Monitors → Packet → ℕ → List Turn → Engine × List Hit → Engine × List Hit
run_fixed monitors p now [] state = state
run_fixed monitors p now ((id, turn) ∷ turns) state =
    run_fixed monitors p now turns
      (visit is_enabled_stateful (λ m. turn p now) id (lookup id monitors) state)

abbrev pub turn_ids : List Turn → List Text
turn_ids [] = []
turn_ids ((id, turn) ∷ turns) = id ∷ turn_ids turns

abbrev pub is_candidate : List Text → Text → Monitor → Bool
is_candidate fixed id m = not (elem id fixed) && is_stateful m && ltb 0 m.count_threshold

unfoldable pub candidates_of : List Text → Monitors → List Text
candidates_of fixed [] = []
candidates_of fixed ((id, m) ∷ monitors) =
    let rest = candidates_of fixed monitors in if is_candidate fixed id m then id ∷ rest else rest

abbrev pub is_source : Option ℕ → ℕ → Bool
is_source none token = false
is_source (some t) token = nat_beq t token

-- The candidates are found anew when the dict is another one.
unfoldable pub refresh : ℕ → Monitors → Engine → Engine
unfolding fixed_turns
refresh token monitors e = if is_source e.source token then e else record e {
  candidates = candidates_of (turn_ids fixed_turns) monitors;
  source = some token;
}

module _ (matches : Monitor → Packet → Bool) where
  abbrev pub new_threshold : Threshold
  new_threshold = record { events = []; last_alert = [] }

  abbrev pub run_threshold : Text → Packet → ℕ → Monitor → Engine → Engine × Option Text
  run_threshold id p now m e =
      let d = get_or (lookup id e.generic) new_threshold in
      let (d', hit) = evaluate_threshold (matches m p) d p m now in
      (record e { generic = insert id d' e.generic }, hit)

  unfoldable pub run_generic :
      Monitors → Packet → ℕ → List Text → Engine × List Hit → Engine × List Hit
  run_generic monitors p now [] state = state
  run_generic monitors p now (id ∷ ids) state =
      run_generic monitors p now ids
        (visit (λ m. m.enabled) (run_threshold id p now) id (lookup id monitors) state)

  unfoldable pub evaluate : Engine → Packet → ℕ → Monitors → ℕ → Engine × List Hit
  unfolding run_fixed run_generic refresh fixed_turns
  evaluate e p token monitors now =
      let (e', hits) = run_fixed monitors p now fixed_turns (e, []) in
      let e'' = refresh token monitors e' in run_generic monitors p now e''.candidates (e'', hits)
