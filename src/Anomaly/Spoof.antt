-- ===== src/Anomaly/Spoof.antt =====
-- sniff4hound/anomaly.py: which ARP replies raise an alert, and what the detector remembers.
use sniff4hound.Prelude.{
  ℕ, ◌≡◌, refl, sym, ap, ◌∙◌, Bool, ◌||◌, Option, none, some, if◌then◌else◌, inl, inr, Bool-cases,
  ◌==◌, number_eq,
}
use sniff4hound.Prelude.Dict.{lookup, lookup-insert}
use sniff4hound.Prelude.Text.{Text, list_eq, list_beq_iff}
use sniff4hound.Anomaly.Detectors.{
  Packet, is_cooling, ArpSpoof, announced, claims_text, rebind, evaluate_arp,
}

-- The alert that a reply raises, given what was known of the address.
abbrev pub alert_for : Text → Text → Option Text → Bool → Option Text
alert_for ip mac none cooling = none
alert_for ip mac (some known) cooling =
    if known == mac || cooling then none else some (claims_text ip mac known)

rebind-alert_for :
    (cooldown : ℕ) (d : ArpSpoof) (ip mac : Text) (known : Option Text) (now : ℕ)
    → (rebind cooldown d ip mac known now).1
      ≡ alert_for ip mac known (is_cooling (lookup ip d.last_alert) cooldown now)
rebind-alert_for cooldown d ip mac none now = refl
rebind-alert_for cooldown d ip mac (some known) now = elim (Bool-cases (known == mac)) [
  | inl same ↦ rw same refl
  | inr other ↦ elim (Bool-cases (is_cooling (lookup ip d.last_alert) cooldown now)) [
    | inl cool ↦ rw (other, cool) refl
    | inr free ↦ rw (other, free) refl
  ]
]

rebind-bindings :
    (cooldown : ℕ) (d : ArpSpoof) (ip mac : Text) (known : Option Text) (now : ℕ) (k : Text)
    → lookup ip d.bindings ≡ known
    → lookup k (rebind cooldown d ip mac known now).0.bindings
      ≡ (if ip == k then some mac else lookup k d.bindings)
rebind-bindings cooldown d ip mac none now k e = lookup-insert ip k mac d.bindings
rebind-bindings cooldown d ip mac (some known) now k e =
    let bound = lookup-insert ip k mac d.bindings in
    elim (Bool-cases (known == mac)) [
      | inl same ↦ elim (Bool-cases (ip == k)) [
        | inl at ↦
            let here : ip ≡ k = (list_beq_iff ip k).0 at in
            let this : known ≡ mac = (list_beq_iff known mac).0 same in
            rw (same, at) (ap (λ i. lookup i d.bindings) (sym here) ∙ e ∙ ap some this)
        | inr away ↦ rw (same, away) refl
      ]
      | inr other ↦ elim (Bool-cases (is_cooling (lookup ip d.last_alert) cooldown now)) [
        | inl cool ↦ rw (other, cool) bound
        | inr free ↦ rw (other, free) bound
      ]
    ]

-- An ARP reply that announces an address raises an alert exactly when the address was bound to
-- another hardware address and is not cooling, with a text that names both; in every case the address
-- is bound to the announced one afterwards, and no other binding changes.
pub evaluate_arp-announced :
    (cooldown : ℕ) (d : ArpSpoof) (p : Packet) (now : ℕ) (ip mac : Text)
    → announced p ≡ some (ip, mac)
    → ((evaluate_arp cooldown d p now).1
        ≡ alert_for ip mac
            (lookup ip d.bindings)
            (is_cooling (lookup ip d.last_alert) cooldown now))
      × ((k : Text)
          → lookup k (evaluate_arp cooldown d p now).0.bindings
            ≡ (if ip == k then some mac else lookup k d.bindings))
unfolding evaluate_arp
evaluate_arp-announced cooldown d p now ip mac h = rw h (
  rebind-alert_for cooldown d ip mac (lookup ip d.bindings) now,
  λ k. rebind-bindings cooldown d ip mac (lookup ip d.bindings) now k refl,
)
