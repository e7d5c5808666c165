-- ===== src/Anomaly/Alerts.antt =====
-- sniff4hound/anomaly.py: the detectors with a cooldown keep its contract.
use sniff4hound.Prelude.{
  ℕ, ◌≡◌, refl, Bool, true, false, ◌||◌, Option, none, some, List, get_or, if_elim, number_eq,
}
use sniff4hound.Prelude.Dict.{Dict, lookup, insert, lookup-insert}
use sniff4hound.Prelude.Text.{Text, list_eq}
use sniff4hound.Anomaly.Detectors.{
  Packet, stripped, is_cooling, PortScan, probe, evaluate_scan, BruteForce, login_key, attempt,
  evaluate_login,
}
use sniff4hound.Anomaly.Cooldown.{Verdict, quiet, alerted, Cooled, reports, reports-Spaced, Spaced}

pub or-false : (a b : Bool) → (a || b) ≡ false → b ≡ false
or-false true b h = cc
or-false false b h = h

-- An alert that is written down under its key.
pub insert-alerted :
    (key t : Text) (cooldown now : ℕ) (alerts : Dict Text ℕ)
    → is_cooling (lookup key alerts) cooldown now ≡ false
    → Verdict key cooldown now
        (λ k. lookup k alerts)
        (λ k. lookup k (insert key now alerts))
        (some t)
insert-alerted key t cooldown now alerts cool =
    alerted t refl cool (λ k. lookup-insert key k now alerts)

pub still :
    (key : Text) (cooldown now : ℕ) (last : Text → Option ℕ)
    → Verdict key cooldown now last last none
still key cooldown now last = quiet refl (λ k. refl)

-- PortScanDetector: the key is the source.
abbrev pub source_key : Packet → Text
source_key p = stripped p.src_ip

abbrev pub scan_last : PortScan → Text → Option ℕ
scan_last d k = lookup k d.last_alert

probe-Verdict :
    (d : PortScan) (ip : Text) (port now : ℕ)
    → Verdict ip d.window_seconds now
        (scan_last d)
        (scan_last (probe d ip port now).0)
        (probe d ip port now).1
unfolding probe
probe-Verdict d ip port now =
    if_elim {A = PortScan × Option Text}
      (λ r. Verdict ip d.window_seconds now (scan_last d) (scan_last r.0) r.1) _
      (λ h. still ip d.window_seconds now (scan_last d))
      (λ h. insert-alerted ip _ d.window_seconds now d.last_alert (or-false _ _ h))

probe_steady :
    (d : PortScan) (ip : Text) (port now : ℕ)
    → (probe d ip port now).0.window_seconds ≡ d.window_seconds
unfolding probe
probe_steady d ip port now =
    if_elim {A = PortScan × Option Text} (λ r. r.0.window_seconds ≡ d.window_seconds) _ (λ h. refl)
      (λ h. refl)

evaluate_scan-Cooled : Cooled evaluate_scan source_key scan_last (λ d. d.window_seconds)
unfolding evaluate_scan
evaluate_scan-Cooled = record {
  verdict = λ d p now.
      if_elim {A = PortScan × Option Text}
        (λ r. Verdict (source_key p) d.window_seconds now (scan_last d) (scan_last r.0) r.1) _
        (λ h. probe-Verdict d (source_key p) (get_or p.dst_port 0) now)
        (λ h. still (source_key p) d.window_seconds now (scan_last d));
  steady = λ d p now.
      if_elim {A = PortScan × Option Text} (λ r. r.0.window_seconds ≡ d.window_seconds) _
        (λ h. probe_steady d (source_key p) (get_or p.dst_port 0) now) (λ h. refl);
}

-- From any state of the port scan detector and over any packets, two alerts for the same source are
-- at least the window apart.
pub scan_reports-Spaced :
    (d : PortScan) (packets : List (Packet × ℕ))
    → Spaced d.window_seconds (reports evaluate_scan source_key d packets)
scan_reports-Spaced =
    reports-Spaced evaluate_scan source_key scan_last (λ d. d.window_seconds) evaluate_scan-Cooled

-- BruteForceLoginDetector: the key is the pair of addresses with the port.
abbrev pub attempt_key : Packet → Text
attempt_key p = login_key (stripped p.src_ip) (stripped p.dst_ip) (get_or p.dst_port 0)

abbrev pub login_last : BruteForce → Text → Option ℕ
login_last d k = lookup k d.last_alert

attempt-Verdict :
    (d : BruteForce) (src dst : Text) (port now : ℕ)
    → let r = attempt d src dst port now in
      Verdict (login_key src dst port) d.window_seconds now (login_last d) (login_last r.0) r.1
unfolding attempt
attempt-Verdict d src dst port now =
    if_elim {A = BruteForce × Option Text}
      (λ r.
        Verdict (login_key src dst port) d.window_seconds now (login_last d) (login_last r.0) r.1)
      _ (λ h. still (login_key src dst port) d.window_seconds now (login_last d))
      (λ h.
        insert-alerted (login_key src dst port) _ d.window_seconds now d.last_alert
          (or-false _ _ h))

attempt_steady :
    (d : BruteForce) (src dst : Text) (port now : ℕ)
    → (attempt d src dst port now).0.window_seconds ≡ d.window_seconds
unfolding attempt
attempt_steady d src dst port now =
    if_elim {A = BruteForce × Option Text} (λ r. r.0.window_seconds ≡ d.window_seconds) _
      (λ h. refl) (λ h. refl)

evaluate_login-Cooled : Cooled evaluate_login attempt_key login_last (λ d. d.window_seconds)
unfolding evaluate_login
evaluate_login-Cooled = record {
  verdict = λ d p now.
      if_elim {A = BruteForce × Option Text}
        (λ r. Verdict (attempt_key p) d.window_seconds now (login_last d) (login_last r.0) r.1) _
        (λ h. attempt-Verdict d (stripped p.src_ip) (stripped p.dst_ip) (get_or p.dst_port 0) now)
        (λ h. still (attempt_key p) d.window_seconds now (login_last d));
  steady = λ d p now.
      if_elim {A = BruteForce × Option Text} (λ r. r.0.window_seconds ≡ d.window_seconds) _
        (λ h. attempt_steady d (stripped p.src_ip) (stripped p.dst_ip) (get_or p.dst_port 0) now)
        (λ h. refl);
}

-- From any state of the brute force detector and over any packets, two alerts for the same source,
-- destination and port are at least the window apart.
pub login_reports-Spaced :
    (d : BruteForce) (packets : List (Packet × ℕ))
    → Spaced d.window_seconds (reports evaluate_login attempt_key d packets)
login_reports-Spaced =
    reports-Spaced evaluate_login attempt_key login_last (λ d. d.window_seconds)
      evaluate_login-Cooled
