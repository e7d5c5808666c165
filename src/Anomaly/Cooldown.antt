-- ===== src/Anomaly/Cooldown.antt =====
-- sniff4hound/anomaly.py: the alerts of a detector that keeps the time of each key's last alert.
use sniff4hound.Prelude.{
  ℕ, ◌+◌, ◌≤◌, ◌≡◌, refl, ap, ◌∙◌, false, Option, none, some, List, [], ◌∷◌, arith, if◌then◌else◌,
  All, ◌==◌, inl, inr, Bool-cases, same_refl, number_eq,
}
use sniff4hound.Prelude.Text.{Text, list_eq, list_beq_iff}
use sniff4hound.Anomaly.Detectors.{is_cooling}

-- A packet raises no alert, and no time of a last alert changes; or it raises one for a key that is
-- not cooling, and then that key's last alert is now.
pub data Verdict (key : Text) (cooldown now : ℕ) (last after : Text → Option ℕ)
    (alert : Option Text) : Type 0 where
  quiet : alert ≡ none → ((k : Text) → after k ≡ last k) → Verdict key cooldown now last after alert
  alerted :
      (t : Text)
      → alert ≡ some t
      → is_cooling (last key) cooldown now ≡ false
      → ((k : Text) → after k ≡ (if key == k then some now else last k))
      → Verdict key cooldown now last after alert

-- What a detector promises of its alerts.
pub record Cooled {S E : Type 0} (eval : S → E → ℕ → S × Option Text) (key : E → Text)
    (last : S → Text → Option ℕ) (cooldown : S → ℕ) : Type 0 where
  pub verdict :
      (s : S) (e : E) (now : ℕ)
      → Verdict (key e) (cooldown s) now (last s) (last (eval s e now).0) (eval s e now).1
  pub steady : (s : S) (e : E) (now : ℕ) → cooldown (eval s e now).0 ≡ cooldown s

module _ {S E : Type 0} (eval : S → E → ℕ → S × Option Text) (key : E → Text) where
  abbrev report : Text → ℕ → Option Text → List (Text × ℕ) → List (Text × ℕ)
  report k now none rest = rest
  report k now (some t) rest = (k, now) ∷ rest

  -- The keys and times of the alerts of a run.
  abbrev pub reports : S → List (E × ℕ) → List (Text × ℕ)
  reports s [] = []
  reports s ((e, now) ∷ events) =
      report (key e) now (eval s e now).1 (reports (eval s e now).0 events)

-- Two alerts of the same key are at least the cooldown apart.
abbrev pub After : ℕ → Text → ℕ → List (Text × ℕ) → Type 0
After cooldown k t alerts = All (λ a. a.0 ≡ k → t + cooldown ≤ a.1) alerts

abbrev pub Spaced : ℕ → List (Text × ℕ) → Type 0
Spaced cooldown [] = Unit
Spaced cooldown ((k, t) ∷ alerts) = After cooldown k t alerts × Spaced cooldown alerts

module _ {S E : Type 0} (eval : S → E → ℕ → S × Option Text) (key : E → Text)
    (last : S → Text → Option ℕ) (cooldown : S → ℕ) (c : Cooled eval key last cooldown) where
  cool_since : (o : Option ℕ) (w t now : ℕ) → o ≡ some t → is_cooling o w now ≡ false → t + w ≤ now
  cool_since none w t now e h = cc
  cool_since (some u) w t now e h = ground arith

  reports-After :
      (s : S) (events : List (E × ℕ)) (k : Text) (t u w : ℕ)
      → cooldown s ≡ w
      → last s k ≡ some u
      → t ≤ u
      → After w k t (reports eval key s events)
  reports-After s [] k t u w z h le = tt
  reports-After s ((e, now) ∷ events) k t u w z h le =
      let s' : S = (eval s e now).0 in
      let z' : cooldown s' ≡ w = c.steady s e now ∙ z in
      elim (c.verdict s e now) [
        | quiet none_ same ↦ rw none_ (reports-After s' events k t u w z' (same k ∙ h) le)
        | alerted detail hit cool set ↦
            let gap : key e ≡ k → u + w ≤ now =
              λ same. cool_since (last s (key e)) w u now (ap (last s) same ∙ h) (rw z at cool) in
            rw hit (
              λ same. omega (arith, gap same),
              elim (Bool-cases (key e == k)) [
                | inl same ↦
                    let le' : t ≤ now = omega (arith, gap ((list_beq_iff (key e) k).0 same)) in
                    reports-After s' events k t now w z' (set k ∙ (rw same refl)) le'
                | inr differs ↦ reports-After s' events k t u w z' (set k ∙ (rw differs h)) le
              ],
            )
      ]

  reports-Spaced_at :
      (s : S) (events : List (E × ℕ)) (w : ℕ)
      → cooldown s ≡ w
      → Spaced w (reports eval key s events)
  reports-Spaced_at s [] w z = tt
  reports-Spaced_at s ((e, now) ∷ events) w z =
      let s' : S = (eval s e now).0 in
      let z' : cooldown s' ≡ w = c.steady s e now ∙ z in
      elim (c.verdict s e now) [
        | quiet none_ same ↦ rw none_ (reports-Spaced_at s' events w z')
        | alerted detail hit cool set ↦ rw hit (
          reports-After s' events (key e) now now w z' (set (key e) ∙ (rw (same_refl (key e)) refl))
              (omega arith),
          reports-Spaced_at s' events w z',
        )
      ]

  -- From any state and over any events, two alerts of the same key are at least the cooldown apart.
  pub reports-Spaced :
      (s : S) (events : List (E × ℕ)) → Spaced (cooldown s) (reports eval key s events)
  reports-Spaced s events = reports-Spaced_at s events (cooldown s) refl
