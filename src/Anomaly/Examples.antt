-- ===== src/Anomaly/Examples.antt =====
-- The anomaly detectors at concrete inputs.
use sniff4hound.Prelude.{
  ℕ, ◌≡◌, refl, Bool, false, none, some, List, [], ◌∷◌, if◌then◌else◌, ◌==◌, number_eq, arith,
}
use sniff4hound.Prelude.Dict.{lookup}
use sniff4hound.Prelude.Text.{Text, text, list_eq, strip, lower, is_space}
use sniff4hound.Anomaly.Detectors.{
  Packet, Flood, ArpSpoof, PortScan, BruteForce, DhcpRogue, announced, is_cooling, evaluate_arp,
  evaluate_scan,
}
use sniff4hound.Anomaly.Floods.{InTime, alarms, history_alarms, alarms-history_alarms}
use sniff4hound.Anomaly.Cooldown.{reports, Spaced}
use sniff4hound.Anomaly.Alerts.{source_key, scan_reports-Spaced}
use sniff4hound.Anomaly.Spoof.{alert_for, evaluate_arp-announced}
use sniff4hound.Anomaly.Engine.{Monitor, Monitors, Engine}
use sniff4hound.Anomaly.Hits.{AllDisabled}

abbrev bursts : List (Text × ℕ)
bursts = (text "a", 1) ∷ (text "b", 2) ∷ (text "a", 3) ∷ (text "a", 9) ∷ (text "a", 10) ∷ []

bursts-InTime : InTime 0 bursts
bursts-InTime = (omega arith, (omega arith, (omega arith, (omega arith, (omega arith, tt)))))

alarms-history_alarms_example :
    alarms (record { window_seconds = 5; threshold = 2; events = [] }) bursts
    ≡ history_alarms 5 2 [] bursts
alarms-history_alarms_example = alarms-history_alarms 5 2 bursts bursts-InTime

abbrev reply : Packet
reply = record {
  proto = some (text "arp");
  src_ip = some (text "10.0.0.1");
  dst_ip = none;
  eth_src = some (text "AA");
  arp_opcode = some 2;
  tcp_flags = none;
  dst_port = none;
  dhcp_msg_type = none;
}

abbrev bound : ArpSpoof
bound = record { bindings = (text "10.0.0.1", text "bb") ∷ []; last_alert = [] }

reply-announced : announced reply ≡ some (text "10.0.0.1", text "aa")
unfolding announced strip is_space lower
reply-announced = refl

evaluate_arp-announced_example :
    ((evaluate_arp 30 bound reply 100).1
      ≡ alert_for
          (text "10.0.0.1")
          (text "aa")
          (lookup (text "10.0.0.1") bound.bindings)
          (is_cooling (lookup (text "10.0.0.1") bound.last_alert) 30 100))
    × ((k : Text)
        → lookup k (evaluate_arp 30 bound reply 100).0.bindings
          ≡ (if text "10.0.0.1" == k then some (text "aa") else lookup k bound.bindings))
evaluate_arp-announced_example =
    evaluate_arp-announced 30 bound reply 100 (text "10.0.0.1") (text "aa") reply-announced

abbrev probe_of : ℕ → Packet
probe_of port = record reply {
  proto = some (text "udp");
  dst_ip = some (text "10.0.0.2");
  dst_port = some port;
}

abbrev login_try : Packet
login_try = record reply {
  proto = some (text "tcp");
  dst_ip = some (text "10.0.0.2");
  tcp_flags = some (text "SYN");
  dst_port = some 22;
}

abbrev scanner : PortScan
scanner = record { window_seconds = 10; threshold = 2; events = []; last_alert = [] }

abbrev probes : List (Packet × ℕ)
probes =
    (probe_of 80, 1)
    ∷ (probe_of 81, 2)
    ∷ (probe_of 82, 3)
    ∷ (probe_of 83, 20)
    ∷ (probe_of 84, 21)
    ∷ []

scan_reports-Spaced_example : Spaced 10 (reports evaluate_scan source_key scanner probes)
scan_reports-Spaced_example = scan_reports-Spaced scanner probes

abbrev guard_ : BruteForce
guard_ = record { window_seconds = 10; threshold = 1; events = []; last_alert = [] }

abbrev offer : ℕ → Packet
offer n = record reply {
  proto = some (text "dhcp");
  src_ip = some (n ∷ []);
  dhcp_msg_type = some 2;
}

abbrev lan : DhcpRogue
lan = record { servers = []; last_alert = none }

abbrev flood : Flood
flood = record { window_seconds = 5; threshold = 2; events = [] }

abbrev engine : Engine
engine = record {
  arp = bound;
  icmp = flood;
  scan = scanner;
  syn = flood;
  login = guard_;
  dns = flood;
  dhcp = lan;
  generic = [];
  candidates = [];
  source = none;
  arp_cooldown = 30;
  dhcp_cooldown = 60;
}

abbrev monitor : Bool → Monitor
monitor enabled = record {
  name = some (text "Spoof");
  enabled = enabled;
  mode = some (text "stateful");
  tag = none;
  label = none;
  severity = some (text "high");
  count_threshold = 0;
  window_seconds = 0;
  group_by = none;
}

abbrev monitors : Bool → Monitors
monitors enabled = (text "builtin-arp-spoof", monitor enabled) ∷ []

all_disabled : AllDisabled (monitors false) (λ m p. false)
unfolding lookup
all_disabled id m = ground arith
