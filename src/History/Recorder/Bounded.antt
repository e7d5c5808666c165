-- ===== src/History/Recorder/Bounded.antt =====
-- sniff4hound/history_recorder.py: the bounds on what waits for a write, under `_add_dns` and `_event`.
use sniff4hound.Prelude.{
  ℕ, suc, ◌*◌, ◌≤◌, ◌≡◌, refl, ap, ◌∙◌, Option, none, some, List, [], ◌∷◌, arith, leb, length,
  length-append, if_elim, leb-false→lt, number_eq, pair_eq,
}
use sniff4hound.Prelude.Dict.{Dict, lookup, length-insert_new, length-insert_known}
use sniff4hound.Prelude.Text.{Text, list_eq}
use sniff4hound.History.{DnsObservation}
use sniff4hound.History.Recorder.{
  DnsKey, Event, ArpObservation, DnsRow, ArpRow, EventKind, ArpKey, arp_key_eq, dns_key_eq,
  Recorder, dns_key, write_dns, dns_with, add_dns, update_dns_row, new_dns_row,
}
use sniff4hound.History.Recorder.Arp.{add_event}
use sniff4hound.History.Recorder.Flush.{add_all}

pub record Bounded (m : ℕ) (r : Recorder) : Type 0 where
  pub limit : r.max_pending ≡ m
  pub dns_bound : length r.dns ≤ m
  pub arp_bound : length r.arp ≤ m
  pub events_bound : length r.events ≤ m
  pub retry_dns_bound : length r.retry_dns ≤ m * 4
  pub retry_arp_bound : length r.retry_arp ≤ m * 4
  pub retry_events_bound : length r.retry_events ≤ m * 4

-- All that waits for a write, with the bound.
abbrev pub pending_of :
    Recorder
    → ℕ
      × (Dict DnsKey DnsRow
          × (Dict ArpKey ArpRow
              × (List Event × (List (DnsKey × DnsRow) × (List (ArpKey × ArpRow) × List Event)))))
pending_of r =
    (r.max_pending, (r.dns, (r.arp, (r.events, (r.retry_dns, (r.retry_arp, r.retry_events))))))

module _ (m : ℕ) where
  -- A change of what is remembered, not of what is pending.
  pub remembered : (r q : Recorder) → pending_of q ≡ pending_of r → Bounded m r → Bounded m q
  remembered r q same b =
      let limit : q.max_pending ≡ r.max_pending = ap (λ p. p.0) same in
      let dns : q.dns ≡ r.dns = ap (λ p. p.1.0) same in
      let arp : q.arp ≡ r.arp = ap (λ p. p.1.1.0) same in
      let events : q.events ≡ r.events = ap (λ p. p.1.1.1.0) same in
      let retry_dns : q.retry_dns ≡ r.retry_dns = ap (λ p. p.1.1.1.1.0) same in
      let retry_arp : q.retry_arp ≡ r.retry_arp = ap (λ p. p.1.1.1.1.1.0) same in
      let retry_events : q.retry_events ≡ r.retry_events = ap (λ p. p.1.1.1.1.1.1) same in
      record {
        limit = limit ∙ b.limit;
        dns_bound = rw dns b.dns_bound;
        arp_bound = rw arp b.arp_bound;
        events_bound = rw events b.events_bound;
        retry_dns_bound = rw retry_dns b.retry_dns_bound;
        retry_arp_bound = rw retry_arp b.retry_arp_bound;
        retry_events_bound = rw retry_events b.retry_events_bound;
      }

  dns_with-Bounded :
      (r : Recorder) (obs : DnsObservation) (observed_at : ℕ) (found : Option DnsRow)
      → lookup (dns_key obs) r.dns ≡ found
      → Bounded m r
      → Bounded m (dns_with r obs observed_at found)
  dns_with-Bounded r obs observed_at (some row) e b = record {
    limit = b.limit;
    dns_bound = omega (
      arith,
      b.dns_bound,
      length-insert_known (dns_key obs) (update_dns_row obs observed_at row) row r.dns e,
    );
    arp_bound = b.arp_bound;
    events_bound = b.events_bound;
    retry_dns_bound = b.retry_dns_bound;
    retry_arp_bound = b.retry_arp_bound;
    retry_events_bound = b.retry_events_bound;
  }
  dns_with-Bounded r obs observed_at none e b =
      let row = update_dns_row obs observed_at (new_dns_row obs observed_at) in
      if_elim {A = Recorder} {x = record r { dropped = suc r.dropped }}
        {y = write_dns r obs observed_at (new_dns_row obs observed_at)} (Bounded m)
        (leb r.max_pending (length r.dns))
        (λ full. remembered r (record r { dropped = suc r.dropped }) refl b)
        (λ room. record {
          limit = b.limit;
          dns_bound =
              omega (
                arith,
                b.limit,
                leb-false→lt _ _ room,
                length-insert_new (dns_key obs) row r.dns e,
              );
          arp_bound = b.arp_bound;
          events_bound = b.events_bound;
          retry_dns_bound = b.retry_dns_bound;
          retry_arp_bound = b.retry_arp_bound;
          retry_events_bound = b.retry_events_bound;
        })

  add_dns-Bounded :
      (r : Recorder) (obs : DnsObservation) (observed_at : ℕ)
      → Bounded m r
      → Bounded m (add_dns r obs observed_at)
  unfolding add_dns
  add_dns-Bounded r obs observed_at b =
      dns_with-Bounded r obs observed_at (lookup (dns_key obs) r.dns) refl b

  pub add_all-Bounded :
      (r : Recorder) (observations : List DnsObservation) (observed_at : ℕ)
      → Bounded m r
      → Bounded m (add_all r observations observed_at)
  add_all-Bounded r [] observed_at b = b
  add_all-Bounded r (obs ∷ rest) observed_at b =
      add_all-Bounded (add_dns r obs observed_at) rest observed_at
        (add_dns-Bounded r obs observed_at b)

  pub add_event-Bounded :
      (r : Recorder) (kind : EventKind) (obs : ArpObservation) (observed_at : ℕ) (a b c : Text)
      → Bounded m r
      → Bounded m (add_event r kind obs observed_at a b c)
  unfolding add_event
  add_event-Bounded r kind obs observed_at a b c v =
      if_elim {A = Recorder} {x = record r { dropped = suc r.dropped }} (Bounded m)
        (leb r.max_pending (length r.events))
        (λ full. remembered r (record r { dropped = suc r.dropped }) refl v)
        (λ room. record {
          limit = v.limit;
          dns_bound = v.dns_bound;
          arp_bound = v.arp_bound;
          events_bound =
              omega (arith, v.limit, leb-false→lt _ _ room, length-append r.events (_ ∷ []));
          retry_dns_bound = v.retry_dns_bound;
          retry_arp_bound = v.retry_arp_bound;
          retry_events_bound = v.retry_events_bound;
        })
