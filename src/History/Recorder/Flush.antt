-- ===== src/History/Recorder/Flush.antt =====
-- sniff4hound/history_recorder.py: observe and flush, and runs of them. A write succeeds or fails as a
-- whole.
use sniff4hound.Prelude.{
  nat_beq, ℕ, suc, ◌-◌, ◌*◌, Bool, ◌&&◌, Option, none, some, List, [], ◌∷◌, ◌++◌, if◌then◌else◌,
  length, drop,
}
use sniff4hound.Prelude.Text.{Text, is_empty}
use sniff4hound.History.{DnsObservation}
use sniff4hound.History.Recorder.{ArpObservation, Recorder, add_dns}
use sniff4hound.History.Recorder.Arp.{add_arp}

abbrev pub add_all : Recorder → List DnsObservation → ℕ → Recorder
add_all r [] observed_at = r
add_all r (obs ∷ rest) observed_at = add_all (add_dns r obs observed_at) rest observed_at

abbrev pub add_claim :
    Recorder → Option (List (Text × Text)) → Option ArpObservation → ℕ → ℕ → Recorder
add_claim r known none observed_at now = r
add_claim r known (some obs) observed_at now = add_arp r known obs observed_at now

-- observe, of what the packet says
unfoldable pub observe :
    Recorder
    → Option (List (Text × Text))
    → List DnsObservation
    → Option ArpObservation
    → ℕ
    → ℕ
    → Recorder
unfolding add_dns add_arp
observe r known observations arp observed_at now =
    add_claim (add_all r observations observed_at) known arp observed_at now

-- items[-n:], which is all of them when n is 0
abbrev pub last_items : {A : Type 0} → ℕ → List A → List A
last_items n items = if nat_beq n 0 then items else drop (length items - n) items

unfoldable pub flush : Recorder → Bool → Recorder
flush r written =
    let dns = r.retry_dns ++ r.dns in
    let arp = r.retry_arp ++ r.arp in
    let events = r.retry_events ++ r.events in
    let n = r.max_pending * 4 in
    let r' = record r {
      dns = [];
      arp = [];
      events = [];
      retry_dns = [];
      retry_arp = [];
      retry_events = [];
    } in
    if is_empty dns && is_empty arp && is_empty events
    then r'
    else (if written then record r' { flushes = suc r.flushes } else record r' {
      retry_dns = last_items n dns;
      retry_arp = last_items n arp;
      retry_events = last_items n events;
      write_errors = suc r.write_errors;
    })

pub data Action : Type 0 where
  observes :
      Option (List (Text × Text)) → List DnsObservation → Option ArpObservation → ℕ → ℕ → Action
  flushes : Bool → Action

unfoldable pub step : Recorder → Action → Recorder
step r (observes known observations arp observed_at now) =
    observe r known observations arp observed_at now
step r (flushes written) = flush r written

unfoldable pub run : Recorder → List Action → Recorder
unfolding step
run r [] = r
run r (a ∷ actions) = run (step r a) actions
