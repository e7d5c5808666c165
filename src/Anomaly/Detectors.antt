-- ===== src/Anomaly/Detectors.antt =====
-- sniff4hound/anomaly.py: the packets the detectors look at, and each detector's state and `evaluate`.
-- A packet's fields are what `packet.get` returns. Times are ticks of a monotonic clock, in which the
-- windows and the cooldowns are given too.
use sniff4hound.Prelude.{
  ℕ, ◌+◌, Bool, true, false, not, ◌&&◌, ◌||◌, Option, none, some, List, [], ◌∷◌, ◌++◌, ltb, leb,
  nat_beq, if◌then◌else◌, length, elem, set_add, get_or, ◌==◌, PyEq, number_eq,
}
use sniff4hound.Prelude.Dict.{Dict, lookup, insert}
use sniff4hound.Prelude.Text.{Text, text, strip, lower, contains, or_blank, is_empty, list_eq}
use sniff4hound.Prelude.Print.{decimal, sorted, join_by}
use sniff4hound.Prelude.Window.{popleft_while}

pub record Packet : Type 0 where
  pub proto : Option Text
  pub src_ip : Option Text
  pub dst_ip : Option Text
  pub eth_src : Option Text
  pub arp_opcode : Option ℕ
  pub tcp_flags : Option Text
  pub dst_port : Option ℕ
  pub dhcp_msg_type : Option ℕ

abbrev pub is_value : {A : Type 0} ⦃e : PyEq A⦄ → Option A → A → Bool
is_value none a = false
is_value (some b) a = b == a

-- str(packet.get(field) or "").strip()
abbrev pub stripped : Option Text → Text
stripped field = strip (or_blank field)

-- A connection that is asked for, not one that is answered.
abbrev pub is_bare_syn : Packet → Bool
is_bare_syn p =
    is_value p.proto (text "tcp")
    && contains (text "SYN") (or_blank p.tcp_flags)
    && not (contains (text "ACK") (or_blank p.tcp_flags))

-- last is not None and now - last < cooldown
abbrev pub is_cooling : Option ℕ → ℕ → ℕ → Bool
is_cooling none cooldown now = false
is_cooling (some last) cooldown now = ltb now (last + cooldown)

-- events[0] < now - window
abbrev pub is_before : ℕ → ℕ → ℕ → Bool
is_before window now time = ltb (time + window) now

-- Append the event and drop those that are out of the window.
abbrev pub slide : ℕ → ℕ → List ℕ → List ℕ
slide window now events = popleft_while (is_before window now) (events ++ now ∷ [])

-- ArpSpoofDetector
pub record ArpSpoof : Type 0 where
  pub bindings : Dict Text Text
  pub last_alert : Dict Text ℕ

-- The address and the hardware address that an ARP reply announces, if the detector looks at it.
unfoldable pub announced : Packet → Option (Text × Text)
announced p =
    let ip = stripped p.src_ip in
    let mac = lower (stripped p.eth_src) in
    if not (is_value p.proto (text "arp") && is_value p.arp_opcode 2)
    then none
    else (if is_empty ip || is_empty mac || ip == text "0.0.0.0"
        then none
        else (if mac == text "ff:ff:ff:ff:ff:ff" || mac == text "00:00:00:00:00:00"
            then none
            else some (ip, mac)))

abbrev pub claims_text : Text → Text → Text → Text
claims_text ip mac known = ip ++ text " now claimed by " ++ mac ++ text ", previously " ++ known

abbrev pub rebind : ℕ → ArpSpoof → Text → Text → Option Text → ℕ → ArpSpoof × Option Text
rebind cooldown d ip mac none now = (record d { bindings = insert ip mac d.bindings }, none)
rebind cooldown d ip mac (some known) now =
    if known == mac
    then (d, none)
    else (let d' = record d { bindings = insert ip mac d.bindings } in
        if is_cooling (lookup ip d.last_alert) cooldown now then (d', none) else (
          record d' { last_alert = insert ip now d.last_alert },
          some (claims_text ip mac known),
        ))

abbrev pub announce : ℕ → ArpSpoof → Option (Text × Text) → ℕ → ArpSpoof × Option Text
announce cooldown d none now = (d, none)
announce cooldown d (some (ip, mac)) now = rebind cooldown d ip mac (lookup ip d.bindings) now

unfoldable pub evaluate_arp : ℕ → ArpSpoof → Packet → ℕ → ArpSpoof × Option Text
evaluate_arp cooldown d p now = announce cooldown d (announced p) now

-- _SlidingWindowFloodDetector
pub record Flood : Type 0 where
  pub window_seconds : ℕ
  pub threshold : ℕ
  pub events : Dict Text (List ℕ)

-- _record. A reached threshold re-arms the key.
unfoldable pub record_event : Flood → Text → ℕ → Flood × Bool
record_event d key now =
    let events = slide d.window_seconds now (get_or (lookup key d.events) []) in
    if leb d.threshold (length events)
    then (record d { events = insert key [] d.events }, true)
    else (record d { events = insert key events d.events }, false)

abbrev pub flood_text : Flood → Text → Text → Text
flood_text d key what =
    key
    ++ text " sent "
    ++ decimal d.threshold
    ++ text "+ "
    ++ what
    ++ text " packets within "
    ++ decimal d.window_seconds
    ++ text "s"

abbrev pub queries_text : Flood → Text → Text
queries_text d key =
    key
    ++ text " sent "
    ++ decimal d.threshold
    ++ text "+ DNS queries within "
    ++ decimal d.window_seconds
    ++ text "s"

-- What the three flood detectors do with a packet that they count, under its source.
abbrev pub count_event : Flood → Text → ℕ → Text → Flood × Option Text
count_event d key now detail =
    if is_empty key
    then (d, none)
    else (let (d', hit) = record_event d key now in (d', if hit then some detail else none))

unfoldable pub evaluate_icmp : Flood → Packet → ℕ → Flood × Option Text
evaluate_icmp d p now =
    let key = stripped p.src_ip in
    if is_value p.proto (text "icmp") || is_value p.proto (text "icmpv6")
    then count_event d key now (flood_text d key (text "ICMP"))
    else (d, none)

unfoldable pub evaluate_syn : Flood → Packet → ℕ → Flood × Option Text
evaluate_syn d p now =
    let key = stripped p.src_ip in
    if is_bare_syn p
    then count_event d key now (flood_text d key (text "bare TCP SYN"))
    else (d, none)

unfoldable pub evaluate_dns : Flood → Packet → ℕ → Flood × Option Text
evaluate_dns d p now =
    let key = stripped p.src_ip in
    if (is_value p.proto (text "tcp") || is_value p.proto (text "udp")) && is_value p.dst_port 53
    then count_event d key now (queries_text d key)
    else (d, none)

-- PortScanDetector
pub record PortScan : Type 0 where
  pub window_seconds : ℕ
  pub threshold : ℕ
  pub events : Dict Text (List (ℕ × ℕ))
  pub last_alert : Dict Text ℕ

-- { port for _, port in events }
abbrev pub ports_of : List (ℕ × ℕ) → List ℕ
ports_of [] = []
ports_of ((time, port) ∷ events) = set_add port (ports_of events)

abbrev pub slide_probes : ℕ → ℕ → ℕ → List (ℕ × ℕ) → List (ℕ × ℕ)
slide_probes window now port events =
    popleft_while (λ e. is_before window now e.0) (events ++ (now, port) ∷ [])

abbrev pub scan_text : PortScan → Text → ℕ → Text
scan_text d ip n =
    ip
    ++ text " touched "
    ++ decimal n
    ++ text " distinct ports within "
    ++ decimal d.window_seconds
    ++ text "s"

unfoldable pub probe : PortScan → Text → ℕ → ℕ → PortScan × Option Text
probe d ip port now =
    let events = slide_probes d.window_seconds now port (get_or (lookup ip d.events) []) in
    let n = length (ports_of events) in
    let d' = record d { events = insert ip events d.events } in
    if ltb n d.threshold || is_cooling (lookup ip d.last_alert) d.window_seconds now
    then (d', none)
    else (record d' { last_alert = insert ip now d.last_alert }, some (scan_text d ip n))

-- Only a packet that opens a connection, or a datagram, is a probe; port 0 is none.
abbrev pub is_probe : Packet → Bool
is_probe p = is_value p.proto (text "udp") || is_bare_syn p

unfoldable pub evaluate_scan : PortScan → Packet → ℕ → PortScan × Option Text
evaluate_scan d p now =
    let ip = stripped p.src_ip in
    let port = get_or p.dst_port 0 in
    if is_probe p && not (is_empty ip || nat_beq port 0) then probe d ip port now else (d, none)

-- BruteForceLoginDetector
pub record BruteForce : Type 0 where
  pub window_seconds : ℕ
  pub threshold : ℕ
  pub events : Dict Text (List ℕ)
  pub last_alert : Dict Text ℕ

abbrev pub login_ports : List ℕ
login_ports = 21 ∷ 22 ∷ 23 ∷ 25 ∷ 110 ∷ 143 ∷ 993 ∷ 995 ∷ 1433 ∷ 3306 ∷ 3389 ∷ 5432 ∷ 5900 ∷ []

abbrev pub attempts_text : BruteForce → Text → Text → ℕ → ℕ → Text
attempts_text d src dst port n =
    src
    ++ text " attempted "
    ++ decimal n
    ++ text "+ connections to "
    ++ dst
    ++ text ":"
    ++ decimal port
    ++ text " within "
    ++ decimal d.window_seconds
    ++ text "s"

abbrev pub login_key : Text → Text → ℕ → Text
login_key src dst port = src ++ text "->" ++ dst ++ text ":" ++ decimal port

unfoldable pub attempt : BruteForce → Text → Text → ℕ → ℕ → BruteForce × Option Text
attempt d src dst port now =
    let key = login_key src dst port in
    let events = slide d.window_seconds now (get_or (lookup key d.events) []) in
    let n = length events in
    let d' = record d { events = insert key events d.events } in
    if ltb n d.threshold || is_cooling (lookup key d.last_alert) d.window_seconds now
    then (d', none)
    else (
      record d' { last_alert = insert key now d.last_alert },
      some (attempts_text d src dst port n),
    )

unfoldable pub evaluate_login : BruteForce → Packet → ℕ → BruteForce × Option Text
evaluate_login d p now =
    let src = stripped p.src_ip in
    let dst = stripped p.dst_ip in
    let port = get_or p.dst_port 0 in
    if is_bare_syn p && elem port login_ports && not (is_empty src || is_empty dst)
    then attempt d src dst port now
    else (d, none)

-- DhcpRogueServerDetector
pub record DhcpRogue : Type 0 where
  pub servers : List Text
  pub last_alert : Option ℕ

abbrev pub servers_text : List Text → Text
servers_text servers =
    decimal (length servers)
    ++ text " distinct DHCP servers observed: "
    ++ join_by (text ", ") (sorted servers)

unfoldable pub observe_server : ℕ → DhcpRogue → Text → ℕ → DhcpRogue × Option Text
observe_server cooldown d ip now =
    let servers = set_add ip d.servers in
    let d' = record d { servers = servers } in
    if leb (length servers) 1 || is_cooling d.last_alert cooldown now
    then (d', none)
    else (record d' { last_alert = some now }, some (servers_text servers))

unfoldable pub evaluate_dhcp : ℕ → DhcpRogue → Packet → ℕ → DhcpRogue × Option Text
evaluate_dhcp cooldown d p now =
    let ip = stripped p.src_ip in
    if is_value p.proto (text "dhcp")
      && (is_value p.dhcp_msg_type 2 || is_value p.dhcp_msg_type 5)
      && not (is_empty ip)
    then observe_server cooldown d ip now
    else (d, none)
