-- ===== src/History/Recorder/Bindings.antt =====
-- sniff4hound/history_recorder.py: the bounds on what waits for a write, under `_add_arp`.
use sniff4hound.Prelude.{
  ℕ, suc, ◌≤◌, ◌≡◌, refl, true, not, ◌&&◌, ◌||◌, Option, none, some, List, [], ◌∷◌, arith, ltb, leb,
  length, get_or, if_elim, leb-false→lt, elem, ◌==◌, number_eq, pair_eq,
}
use sniff4hound.Prelude.Dict.{lookup, insert, length-insert_new, length-insert_known}
use sniff4hound.Prelude.Text.{Text, is_empty, list_eq}
use sniff4hound.History.Recorder.{
  ArpObservation, ArpRow, ArpKey, arp_key_eq, dns_key_eq, Recorder, new_device, mac_new_ip,
  ip_mac_changed, mac_mismatch,
}
use sniff4hound.History.Recorder.Arp.{
  add_event, bind_pair, bind_pairs, load_arp_state, update_arp_row, new_arp_row, note_ips,
  note_move, is_due, trim_mismatches, note_mismatch, note_events, write_arp, arp_with, add_arp,
}
use sniff4hound.History.Recorder.Flush.{add_claim}
use sniff4hound.History.Recorder.Bounded.{Bounded, remembered, add_event-Bounded}

module _ (m : ℕ) where
  bind_pair-Bounded : (r : Recorder) (ip mac : Text) → Bounded m r → Bounded m (bind_pair r ip mac)
  unfolding bind_pair
  bind_pair-Bounded r ip mac b = remembered m r (bind_pair r ip mac) refl b

  bind_pairs-Bounded :
      (r : Recorder) (pairs : List (Text × Text)) → Bounded m r → Bounded m (bind_pairs r pairs)
  bind_pairs-Bounded r [] b = b
  bind_pairs-Bounded r ((ip, mac) ∷ pairs) b =
      bind_pairs-Bounded (bind_pair r ip mac) pairs (bind_pair-Bounded r ip mac b)

  load_arp_state-Bounded :
      (r : Recorder) (known : Option (List (Text × Text)))
      → Bounded m r
      → Bounded m (load_arp_state r known)
  unfolding load_arp_state
  load_arp_state-Bounded r known b =
      let r' : Recorder = record r { arp_ready = true } in
      if_elim {A = Recorder} {x = r} {y = bind_pairs r' (get_or known [])} (Bounded m) r.arp_ready
        (λ h. b) (λ h. bind_pairs-Bounded r' (get_or known []) (remembered m r r' refl b))

  note_ips-Bounded :
      (r : Recorder) (obs : ArpObservation) (observed_at : ℕ) (ips : Option (List Text))
      → Bounded m r
      → Bounded m (note_ips r obs observed_at ips)
  unfolding note_ips
  note_ips-Bounded r obs observed_at none b =
      add_event-Bounded m r new_device obs observed_at _ _ _ b
  note_ips-Bounded r obs observed_at (some ips) b =
      if_elim {A = Recorder} {x = r} (Bounded m) (elem obs.ip ips) (λ h. b)
        (λ h. add_event-Bounded m r mac_new_ip obs observed_at _ _ _ b)

  note_move-Bounded :
      (r : Recorder) (obs : ArpObservation) (observed_at : ℕ) (previous : Text)
      → Bounded m r
      → Bounded m (note_move r obs observed_at previous)
  unfolding note_move
  note_move-Bounded r obs observed_at previous b =
      if_elim {A = Recorder} {x = r} (Bounded m) (is_empty previous || previous == obs.mac) (λ h. b)
        (λ h. add_event-Bounded m r ip_mac_changed obs observed_at _ _ _ b)

  trim_mismatches-Bounded : (r : Recorder) → Bounded m r → Bounded m (trim_mismatches r)
  trim_mismatches-Bounded r b =
      if_elim {A = Recorder} {x = record r { mismatch_at = [] }} {y = r} (Bounded m)
        (ltb r.max_pending (length r.mismatch_at))
        (λ h. remembered m r (record r { mismatch_at = [] }) refl b) (λ h. b)

  note_mismatch-Bounded :
      (r : Recorder) (obs : ArpObservation) (observed_at now : ℕ)
      → Bounded m r
      → Bounded m (note_mismatch r obs observed_at now)
  unfolding note_mismatch
  note_mismatch-Bounded r obs observed_at now b =
      let key : ArpKey = (obs.ip, obs.mac) in
      let r' : Recorder = record r { mismatch_at = insert key now r.mismatch_at } in
      if_elim {A = Recorder} {y = r} (Bounded m)
        (not (is_empty obs.mismatch) && is_due (lookup key r.mismatch_at) now)
        (λ h.
          trim_mismatches-Bounded (add_event r' mac_mismatch obs observed_at [] [] obs.mismatch) (
            add_event-Bounded m r' mac_mismatch obs observed_at [] [] obs.mismatch
              (remembered m r r' refl b)))
        (λ h. b)

  note_events-Bounded :
      (r : Recorder) (obs : ArpObservation) (observed_at now : ℕ)
      → Bounded m r
      → Bounded m (note_events r obs observed_at now)
  note_events-Bounded r obs observed_at now b =
      let r₁ : Recorder = note_ips r obs observed_at (lookup obs.mac r.mac_ips) in
      let previous : Text = get_or (lookup obs.ip r.ip_mac) [] in
      note_mismatch-Bounded (note_move r₁ obs observed_at previous) obs observed_at now (
        note_move-Bounded r₁ obs observed_at previous
          (note_ips-Bounded r obs observed_at (lookup obs.mac r.mac_ips) b))

  write_arp-Bounded :
      (r : Recorder) (obs : ArpObservation) (observed_at now : ℕ) (row : ArpRow)
      → length (insert (obs.ip, obs.mac) (update_arp_row obs observed_at row) r.arp) ≤ m
      → Bounded m r
      → Bounded m (write_arp r obs observed_at now row)
  write_arp-Bounded r obs observed_at now row room b =
      let r' : Recorder = record r {
        arp = insert (obs.ip, obs.mac) (update_arp_row obs observed_at row) r.arp;
        arp_count = suc r.arp_count;
      } in
      let b' : Bounded m r' = record {
        limit = b.limit;
        dns_bound = b.dns_bound;
        arp_bound = room;
        events_bound = b.events_bound;
        retry_dns_bound = b.retry_dns_bound;
        retry_arp_bound = b.retry_arp_bound;
        retry_events_bound = b.retry_events_bound;
      } in
      bind_pair-Bounded (note_events r' obs observed_at now) obs.ip obs.mac
        (note_events-Bounded r' obs observed_at now b')

  arp_with-Bounded :
      (r : Recorder) (obs : ArpObservation) (observed_at now : ℕ) (found : Option ArpRow)
      → lookup (obs.ip, obs.mac) r.arp ≡ found
      → Bounded m r
      → Bounded m (arp_with r obs observed_at now found)
  arp_with-Bounded r obs observed_at now (some row) e b =
      write_arp-Bounded r obs observed_at now row
        (omega (
          arith,
          b.arp_bound,
          length-insert_known (obs.ip, obs.mac) (update_arp_row obs observed_at row) row r.arp e,
        ))
        b
  arp_with-Bounded r obs observed_at now none e b =
      let row = new_arp_row obs observed_at in
      if_elim {A = Recorder} {x = record r { dropped = suc r.dropped }}
        {y = write_arp r obs observed_at now row} (Bounded m) (leb r.max_pending (length r.arp))
        (λ full. remembered m r (record r { dropped = suc r.dropped }) refl b)
        (λ room.
          write_arp-Bounded r obs observed_at now row
            (omega (
              arith,
              b.limit,
              leb-false→lt _ _ room,
              length-insert_new (obs.ip, obs.mac) (update_arp_row obs observed_at row) r.arp e,
            ))
            b)

  add_arp-Bounded :
      (r : Recorder) (known : Option (List (Text × Text))) (obs : ArpObservation)
      (observed_at now : ℕ)
      → Bounded m r
      → Bounded m (add_arp r known obs observed_at now)
  unfolding add_arp
  add_arp-Bounded r known obs observed_at now b =
      let r' : Recorder = load_arp_state r known in
      arp_with-Bounded r' obs observed_at now (lookup (obs.ip, obs.mac) r'.arp) refl
        (load_arp_state-Bounded r known b)

  pub add_claim-Bounded :
      (r : Recorder) (known : Option (List (Text × Text))) (claim : Option ArpObservation)
      (observed_at now : ℕ)
      → Bounded m r
      → Bounded m (add_claim r known claim observed_at now)
  add_claim-Bounded r known none observed_at now b = b
  add_claim-Bounded r known (some obs) observed_at now b =
      add_arp-Bounded r known obs observed_at now b
