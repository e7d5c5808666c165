-- ===== src/Anomaly/Claims.antt =====
-- sniff4hound/anomaly.py: the alerts of spoofed addresses and rogue servers keep their distance.
use sniff4hound.Prelude.{
  ℕ, ◌≡◌, refl, sym, Bool, true, false, not, ◌||◌, ◌&&◌, Option, none, some, List, [], ◌∷◌,
  if◌then◌else◌, ◌==◌, inl, inr, if_elim, number_eq, set_add, ◌⊎◌, subst,
}
use sniff4hound.Prelude.Dict.{lookup}
use sniff4hound.Prelude.Text.{Text, text, list_eq, is_empty, lower}
use sniff4hound.Anomaly.Detectors.{
  Packet, stripped, is_cooling, is_value, ArpSpoof, announced, rebind, announce, evaluate_arp,
  DhcpRogue, observe_server, evaluate_dhcp,
}
use sniff4hound.Anomaly.Cooldown.{Verdict, quiet, alerted, Cooled, reports, reports-Spaced, Spaced}
use sniff4hound.Anomaly.Alerts.{or-false, insert-alerted, still, source_key}

-- ArpSpoofDetector: the key is the address.
abbrev pub spoof_last : ArpSpoof → Text → Option ℕ
spoof_last d k = lookup k d.last_alert

-- Three guards before a result.
guards :
    (a b c : Bool) (r : Text × Text)
    → let result = if a then none else (if b then none else (if c then none else some r)) in
      (result ≡ none) ⊎ (result ≡ some r)
guards true b c r = inl refl
guards false true c r = inl refl
guards false false true r = inl refl
guards false false false r = inr refl

abbrev pub any_server : Packet → Text
any_server p = []

module _ (cooldown : ℕ) where
  abbrev Claim : ArpSpoof → Text → ℕ → ArpSpoof × Option Text → Type 0
  Claim d ip now r = Verdict ip cooldown now (spoof_last d) (spoof_last r.0) r.1

  rebind-Verdict :
      (d : ArpSpoof) (ip mac : Text) (known : Option Text) (now : ℕ)
      → Claim d ip now (rebind cooldown d ip mac known now)
  rebind-Verdict d ip mac none now = still ip cooldown now (spoof_last d)
  rebind-Verdict d ip mac (some known) now =
      if_elim {A = ArpSpoof × Option Text} (Claim d ip now) (known == mac)
        (λ h. still ip cooldown now (spoof_last d))
        (λ h.
          if_elim {A = ArpSpoof × Option Text} (Claim d ip now)
            (is_cooling (lookup ip d.last_alert) cooldown now)
            (λ k. still ip cooldown now (spoof_last d))
            (λ k. insert-alerted ip _ cooldown now d.last_alert k))

  announced_cases :
      (p : Packet)
      → (announced p ≡ none) ⊎ (announced p ≡ some (source_key p, lower (stripped p.eth_src)))
  unfolding announced
  announced_cases p =
      let ip = source_key p in
      let mac = lower (stripped p.eth_src) in
      guards (not (is_value p.proto (text "arp") && is_value p.arp_opcode 2))
        (is_empty ip || is_empty mac || ip == text "0.0.0.0")
        (mac == text "ff:ff:ff:ff:ff:ff" || mac == text "00:00:00:00:00:00") (ip, mac)

  evaluate_arp-Cooled : Cooled (evaluate_arp cooldown) source_key spoof_last (λ d. cooldown)
  unfolding evaluate_arp
  evaluate_arp-Cooled = record {
    verdict = λ d p now.
        let ip = source_key p in
        let mac = lower (stripped p.eth_src) in
        let P : Option (Text × Text) → Type 0 = λ r. Claim d ip now (announce cooldown d r now) in
        elim (announced_cases p) [
          | inl ignored ↦ subst P (sym ignored) (still ip cooldown now (spoof_last d))
          | inr heard ↦ subst P (sym heard) (rebind-Verdict d ip mac (lookup ip d.bindings) now)
        ];
    steady = λ d p now. refl;
  }

  -- From any state of the ARP detector and over any packets, two alerts for the same address are at
  -- least the cooldown apart.
  pub spoof_reports-Spaced :
      (d : ArpSpoof) (packets : List (Packet × ℕ))
      → Spaced cooldown (reports (evaluate_arp cooldown) source_key d packets)
  spoof_reports-Spaced =
      reports-Spaced (evaluate_arp cooldown) source_key spoof_last (λ d. cooldown)
        evaluate_arp-Cooled

  -- DhcpRogueServerDetector: one time for all servers.
  abbrev pub rogue_last : DhcpRogue → Text → Option ℕ
  rogue_last d [] = d.last_alert
  rogue_last d (c ∷ k) = none

  abbrev Rogue : DhcpRogue → ℕ → DhcpRogue × Option Text → Type 0
  Rogue d now r = Verdict [] cooldown now (rogue_last d) (rogue_last r.0) r.1

  same_last :
      (d d' : DhcpRogue)
      → d'.last_alert ≡ d.last_alert
      → (k : Text) → rogue_last d' k ≡ rogue_last d k
  same_last d d' e [] = e
  same_last d d' e (c ∷ k) = refl

  set_last :
      (d : DhcpRogue) (servers : List Text) (now : ℕ) (k : Text)
      → rogue_last (record d { servers = servers; last_alert = some now }) k
        ≡ (if [] == k then some now else rogue_last d k)
  set_last d servers now [] = refl
  set_last d servers now (c ∷ k) = refl

  observe_server-Verdict :
      (d : DhcpRogue) (ip : Text) (now : ℕ) → Rogue d now (observe_server cooldown d ip now)
  unfolding observe_server
  observe_server-Verdict d ip now =
      if_elim {A = DhcpRogue × Option Text} (Rogue d now) _
        (λ h. quiet refl (same_last d (record d { servers = set_add ip d.servers }) refl))
        (λ h. alerted _ refl (or-false _ _ h) (set_last d (set_add ip d.servers) now))

  evaluate_dhcp-Cooled : Cooled (evaluate_dhcp cooldown) any_server rogue_last (λ d. cooldown)
  unfolding evaluate_dhcp
  evaluate_dhcp-Cooled = record {
    verdict = λ d p now.
        if_elim {A = DhcpRogue × Option Text} (Rogue d now) _
          (λ h. observe_server-Verdict d (stripped p.src_ip) now)
          (λ h. quiet refl (same_last d d refl));
    steady = λ d p now. refl;
  }

  -- From any state of the DHCP detector and over any packets, two alerts are at least the cooldown
  -- apart.
  pub rogue_reports-Spaced :
      (d : DhcpRogue) (packets : List (Packet × ℕ))
      → Spaced cooldown (reports (evaluate_dhcp cooldown) any_server d packets)
  rogue_reports-Spaced =
      reports-Spaced (evaluate_dhcp cooldown) any_server rogue_last (λ d. cooldown)
        evaluate_dhcp-Cooled
