-- ===== src/History/Recorder/Arp.antt =====
-- sniff4hound/history_recorder.py: _add_arp, _event and _load_arp_state.
use sniff4hound.Prelude.{
  ℕ, suc, ◌+◌, Bool, true, false, not, ◌&&◌, ◌||◌, Option, none, some, List, [], ◌∷◌, ◌++◌, ltb,
  leb, min, max, if◌then◌else◌, length, elem, set_add, get_or, ◌==◌, number_eq,
}
use sniff4hound.Prelude.Dict.{lookup, insert}
use sniff4hound.Prelude.Text.{Text, text, is_empty, list_eq}
use sniff4hound.History.Recorder.{
  Operation, request, reply, other, ArpObservation, ArpRow, EventKind, new_device, mac_new_ip,
  ip_mac_changed, mac_mismatch, ArpKey, arp_key_eq, Recorder, mismatch_event_interval,
}

-- _event
unfoldable pub add_event : Recorder → EventKind → ArpObservation → ℕ → Text → Text → Text → Recorder
add_event r kind obs observed_at previous_ip previous_mac detail =
    if leb r.max_pending (length r.events) then record r { dropped = suc r.dropped } else record r {
      events =
          r.events
          ++ record {
            kind = kind;
            ip = obs.ip;
            mac = obs.mac;
            previous_ip = previous_ip;
            previous_mac = previous_mac;
            interface = obs.interface;
            detail = detail;
            occurred_at = observed_at;
          }
            ∷ [];
    }

-- The memory of a binding.
unfoldable pub bind_pair : Recorder → Text → Text → Recorder
bind_pair r ip mac = record r {
  ip_mac = insert ip mac r.ip_mac;
  mac_ips = insert mac (set_add ip (get_or (lookup mac r.mac_ips) [])) r.mac_ips;
  mac_last_ip = insert mac ip r.mac_last_ip;
}

abbrev pub bind_pairs : Recorder → List (Text × Text) → Recorder
bind_pairs r [] = r
bind_pairs r ((ip, mac) ∷ pairs) = bind_pairs (bind_pair r ip mac) pairs

-- _load_arp_state
unfoldable pub load_arp_state : Recorder → Option (List (Text × Text)) → Recorder
unfolding bind_pair
load_arp_state r known =
    if r.arp_ready then r else bind_pairs (record r { arp_ready = true }) (get_or known [])

abbrev pub new_arp_row : ArpObservation → ℕ → ArpRow
new_arp_row obs observed_at = record {
  interface = obs.interface;
  packet_count = 0;
  request_count = 0;
  reply_count = 0;
  gratuitous_count = 0;
  mismatch_count = 0;
  first_seen = observed_at;
  last_seen = observed_at;
}

abbrev pub is_request : Operation → Bool
is_request request = true
is_request reply = false
is_request other = false

abbrev pub is_reply : Operation → Bool
is_reply request = false
is_reply reply = true
is_reply other = false

abbrev pub count_if : Bool → ℕ → ℕ
count_if b n = if b then suc n else n

unfoldable pub update_arp_row : ArpObservation → ℕ → ArpRow → ArpRow
update_arp_row obs observed_at row = record {
  interface = if is_empty obs.interface then row.interface else obs.interface;
  packet_count = suc row.packet_count;
  request_count = count_if (is_request obs.operation) row.request_count;
  reply_count = count_if (is_reply obs.operation) row.reply_count;
  gratuitous_count = count_if obs.gratuitous row.gratuitous_count;
  mismatch_count = count_if (not (is_empty obs.mismatch)) row.mismatch_count;
  first_seen = min observed_at row.first_seen;
  last_seen = max observed_at row.last_seen;
}

-- A hardware address that was never seen, or that uses another address.
unfoldable pub note_ips : Recorder → ArpObservation → ℕ → Option (List Text) → Recorder
unfolding add_event
note_ips r obs observed_at none =
    add_event r new_device obs observed_at [] [] (text "first seen claiming " ++ obs.ip)
note_ips r obs observed_at (some ips) =
    if elem obs.ip ips
    then r
    else add_event r mac_new_ip obs observed_at (get_or (lookup obs.mac r.mac_last_ip) []) []
        (obs.mac ++ text " now also uses " ++ obs.ip)

-- An address that belonged to another hardware address.
unfoldable pub note_move : Recorder → ArpObservation → ℕ → Text → Recorder
unfolding add_event
note_move r obs observed_at previous_mac =
    if is_empty previous_mac || previous_mac == obs.mac
    then r
    else add_event r ip_mac_changed obs observed_at [] previous_mac
        (obs.ip ++ text " moved from " ++ previous_mac ++ text " to " ++ obs.mac)

abbrev pub is_due : Option ℕ → ℕ → Bool
is_due none now = true
is_due (some last) now = leb (last + mismatch_event_interval) now

abbrev pub trim_mismatches : Recorder → Recorder
trim_mismatches r =
    if ltb r.max_pending (length r.mismatch_at) then record r { mismatch_at = [] } else r

unfoldable pub note_mismatch : Recorder → ArpObservation → ℕ → ℕ → Recorder
unfolding add_event
note_mismatch r obs observed_at now =
    let key : ArpKey = (obs.ip, obs.mac) in
    if not (is_empty obs.mismatch) && is_due (lookup key r.mismatch_at) now
    then trim_mismatches (
        add_event (record r { mismatch_at = insert key now r.mismatch_at }) mac_mismatch obs
          observed_at [] [] obs.mismatch)
    else r

abbrev pub note_events : Recorder → ArpObservation → ℕ → ℕ → Recorder
note_events r obs observed_at now =
    note_mismatch
      (note_move (note_ips r obs observed_at (lookup obs.mac r.mac_ips)) obs observed_at
        (get_or (lookup obs.ip r.ip_mac) []))
      obs observed_at now

abbrev pub write_arp : Recorder → ArpObservation → ℕ → ℕ → ArpRow → Recorder
write_arp r obs observed_at now row =
    bind_pair
      (note_events
        (record r {
          arp = insert (obs.ip, obs.mac) (update_arp_row obs observed_at row) r.arp;
          arp_count = suc r.arp_count;
        })
        obs observed_at now)
      obs.ip obs.mac

abbrev pub arp_with : Recorder → ArpObservation → ℕ → ℕ → Option ArpRow → Recorder
arp_with r obs observed_at now (some row) = write_arp r obs observed_at now row
arp_with r obs observed_at now none =
    if leb r.max_pending (length r.arp)
    then record r { dropped = suc r.dropped }
    else write_arp r obs observed_at now (new_arp_row obs observed_at)

abbrev pub arp_loaded : Recorder → ArpObservation → ℕ → ℕ → Recorder
arp_loaded r obs observed_at now = arp_with r obs observed_at now (lookup (obs.ip, obs.mac) r.arp)

-- _add_arp
unfoldable pub add_arp : Recorder → Option (List (Text × Text)) → ArpObservation → ℕ → ℕ → Recorder
unfolding load_arp_state update_arp_row bind_pair note_ips note_move note_mismatch
add_arp r known obs observed_at now = arp_loaded (load_arp_state r known) obs observed_at now
