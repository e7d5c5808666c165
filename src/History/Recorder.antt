-- ===== src/History/Recorder.antt =====
-- sniff4hound/history_recorder.py: what accumulates between two writes. `observed_at` is the packet's
-- time stamp, `now` the monotonic clock; `known` is what the store answers when it is first asked for
-- the recorded pairs, or nothing when it fails.
pub mod Arp
pub mod Flush
pub mod Bounded
pub mod Bindings
pub mod Pending
use sniff4hound.Prelude.{
  ℕ, suc, ◌+◌, ◌-◌, ◌*◌, Bool, true, false, not, ◌&&◌, ◌||◌, Option, none, some, List, [], ◌∷◌,
  ◌++◌, ltb, leb, min, max, if◌then◌else◌, length, drop, elem, set_add, get_or, ◌==◌, number_eq,
  pair_eq, PyEq,
}
use sniff4hound.Prelude.Dict.{Dict, lookup, insert}
use sniff4hound.Prelude.Text.{Text, text, is_empty, list_eq}
use sniff4hound.History.{DnsObservation}

pub data Operation : Type 0 where
  request reply other : Operation

pub record ArpObservation : Type 0 where
  pub ip : Text
  pub mac : Text
  pub operation : Operation
  pub interface : Text
  pub gratuitous : Bool
  pub mismatch : Text

pub record DnsRow : Type 0 where
  pub source : Text
  pub transport : Text
  pub query_count : ℕ
  pub response_count : ℕ
  pub error_count : ℕ
  pub last_rcode : Text
  pub ttl_min : Option ℕ
  pub ttl_max : Option ℕ
  pub ttl_last : Option ℕ
  pub last_client : Text
  pub last_resolver : Text
  pub clients : List Text
  pub resolvers : List Text
  pub first_seen : ℕ
  pub last_seen : ℕ

pub record ArpRow : Type 0 where
  pub interface : Text
  pub packet_count : ℕ
  pub request_count : ℕ
  pub reply_count : ℕ
  pub gratuitous_count : ℕ
  pub mismatch_count : ℕ
  pub first_seen : ℕ
  pub last_seen : ℕ

pub data EventKind : Type 0 where
  new_device mac_new_ip ip_mac_changed mac_mismatch : EventKind

pub record Event : Type 0 where
  pub kind : EventKind
  pub ip : Text
  pub mac : Text
  pub previous_ip : Text
  pub previous_mac : Text
  pub interface : Text
  pub detail : Text
  pub occurred_at : ℕ

abbrev pub DnsKey : Type 0
DnsKey = Text × (Text × Text)

abbrev pub ArpKey : Type 0
ArpKey = Text × Text

instance abbrev pub arp_key_eq : PyEq ArpKey
arp_key_eq = pair_eq

instance abbrev pub dns_key_eq : PyEq DnsKey
dns_key_eq = pair_eq {A = Text} {B = ArpKey}

pub record Recorder : Type 0 where
  pub max_pending : ℕ
  pub dns : Dict DnsKey DnsRow
  pub arp : Dict ArpKey ArpRow
  pub events : List Event
  pub retry_dns : List (DnsKey × DnsRow)
  pub retry_arp : List (ArpKey × ArpRow)
  pub retry_events : List Event
  pub arp_ready : Bool
  pub ip_mac : Dict Text Text
  pub mac_ips : Dict Text (List Text)
  pub mac_last_ip : Dict Text Text
  pub mismatch_at : Dict ArpKey ℕ
  pub dns_count : ℕ
  pub arp_count : ℕ
  pub dropped : ℕ
  pub flushes : ℕ
  pub write_errors : ℕ

abbrev pub max_remembered_peers : ℕ
max_remembered_peers = 20

abbrev pub mismatch_event_interval : ℕ
mismatch_event_interval = 3600

unfoldable pub init : ℕ → Recorder
init max_pending = record {
  max_pending = max_pending;
  dns = [];
  arp = [];
  events = [];
  retry_dns = [];
  retry_arp = [];
  retry_events = [];
  arp_ready = false;
  ip_mac = [];
  mac_ips = [];
  mac_last_ip = [];
  mismatch_at = [];
  dns_count = 0;
  arp_count = 0;
  dropped = 0;
  flushes = 0;
  write_errors = 0;
}

abbrev pub new_dns_row : DnsObservation → ℕ → DnsRow
new_dns_row obs observed_at = record {
  source = obs.source;
  transport = obs.transport;
  query_count = 0;
  response_count = 0;
  error_count = 0;
  last_rcode = [];
  ttl_min = none;
  ttl_max = none;
  ttl_last = none;
  last_client = [];
  last_resolver = [];
  clients = [];
  resolvers = [];
  first_seen = observed_at;
  last_seen = observed_at;
}

abbrev pub count_answer : DnsObservation → DnsRow → DnsRow
count_answer obs row =
    if obs.is_response
    then record row {
      response_count = suc row.response_count;
      last_rcode = obs.rcode;
      error_count = if obs.rcode == text "NOERROR" then row.error_count else suc row.error_count;
    }
    else record row { query_count = suc row.query_count }

abbrev pub least_of : Option ℕ → ℕ → ℕ
least_of none n = n
least_of (some m) n = min m n

abbrev pub most_of : Option ℕ → ℕ → ℕ
most_of none n = n
most_of (some m) n = max m n

abbrev pub note_ttl : Option ℕ → DnsRow → DnsRow
note_ttl none row = row
note_ttl (some ttl) row = record row {
  ttl_last = some ttl;
  ttl_min = some (least_of row.ttl_min ttl);
  ttl_max = some (most_of row.ttl_max ttl);
}

abbrev pub remember : Text → List Text → List Text
remember peer peers =
    if elem peer peers || leb max_remembered_peers (length peers) then peers else peers ++ peer ∷ []

abbrev pub note_client : Text → DnsRow → DnsRow
note_client client row =
    if is_empty client
    then row
    else record row { last_client = client; clients = remember client row.clients }

abbrev pub note_resolver : Text → DnsRow → DnsRow
note_resolver resolver row =
    if is_empty resolver
    then row
    else record row { last_resolver = resolver; resolvers = remember resolver row.resolvers }

abbrev pub note_seen : ℕ → DnsRow → DnsRow
note_seen observed_at row = record row {
  first_seen = min observed_at row.first_seen;
  last_seen = max observed_at row.last_seen;
}

unfoldable pub update_dns_row : DnsObservation → ℕ → DnsRow → DnsRow
update_dns_row obs observed_at row = note_seen observed_at (
    note_resolver obs.resolver (
      note_client obs.client (
        note_ttl obs.ttl
          (record (count_answer obs row) { source = obs.source; transport = obs.transport }))))

abbrev pub dns_key : DnsObservation → DnsKey
dns_key obs = (obs.domain, (obs.record_type, obs.answer))

abbrev pub write_dns : Recorder → DnsObservation → ℕ → DnsRow → Recorder
write_dns r obs observed_at row = record r {
  dns = insert (dns_key obs) (update_dns_row obs observed_at row) r.dns;
  dns_count = suc r.dns_count;
}

abbrev pub dns_with : Recorder → DnsObservation → ℕ → Option DnsRow → Recorder
dns_with r obs observed_at (some row) = write_dns r obs observed_at row
dns_with r obs observed_at none =
    if leb r.max_pending (length r.dns)
    then record r { dropped = suc r.dropped }
    else write_dns r obs observed_at (new_dns_row obs observed_at)

-- _add_dns
unfoldable pub add_dns : Recorder → DnsObservation → ℕ → Recorder
unfolding update_dns_row
add_dns r obs observed_at = dns_with r obs observed_at (lookup (dns_key obs) r.dns)
