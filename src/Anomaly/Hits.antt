-- ===== src/Anomaly/Hits.antt =====
-- sniff4hound/anomaly.py: the hits of the engine.
use sniff4hound.Prelude.{
  ℕ, ◌≡◌, refl, ap, ◌∙◌, Bool, true, false, Option, none, some, List, [], ◌∷◌, number_eq,
}
use sniff4hound.Prelude.Dict.{lookup}
use sniff4hound.Prelude.Text.{Text, list_eq}
use sniff4hound.Anomaly.Detectors.{Packet}
use sniff4hound.Anomaly.Engine.{
  Monitor, Monitors, Hit, hit_of, Engine, visit, is_enabled_stateful, Turn, fixed_turns, run_fixed,
  refresh, run_threshold, run_generic, evaluate,
}

module _ (monitors : Monitors) where
  -- The hit is that of an enabled monitor of the dict, with what the monitor's action says.
  pub record Wanted (h : Hit) : Type 0 where
    pub monitor : Monitor
    pub detail : Text
    pub known : lookup h.monitor_id monitors ≡ some monitor
    pub enabled : monitor.enabled ≡ true
    pub made : h ≡ hit_of h.monitor_id monitor detail

  module _ (matches : Monitor → Packet → Bool) where
    visit_off :
        (wanted : Monitor → Bool) (eval : Monitor → Engine → Engine × Option Text) (id : Text)
        (found : Option Monitor) (state : Engine × List Hit)
        → ((m : Monitor) → found ≡ some m → wanted m ≡ false)
        → visit wanted eval id found state ≡ state
    visit_off wanted eval id none (e, hits) off = refl
    visit_off wanted eval id (some m) (e, hits) off = rw (off m refl) refl

    -- No monitor of the dict is enabled.
    abbrev pub AllDisabled : Type 0
    AllDisabled = (id : Text) (m : Monitor) → lookup id monitors ≡ some m → m.enabled ≡ false

    run_fixed_off :
        (p : Packet) (now : ℕ) (turns : List Turn) (state : Engine × List Hit)
        → AllDisabled
        → run_fixed monitors p now turns state ≡ state
    unfolding run_fixed
    run_fixed_off p now [] state off = refl
    run_fixed_off p now ((id, turn) ∷ turns) state off =
        ap (run_fixed monitors p now turns) (
          visit_off is_enabled_stateful (λ m. turn p now) id (lookup id monitors) state
            (λ m k. rw (off id m k) refl))
        ∙ run_fixed_off p now turns state off

    run_generic_off :
        (p : Packet) (now : ℕ) (ids : List Text) (state : Engine × List Hit)
        → AllDisabled
        → run_generic matches monitors p now ids state ≡ state
    unfolding run_generic
    run_generic_off p now [] state off = refl
    run_generic_off p now (id ∷ ids) state off =
        ap (run_generic matches monitors p now ids) (
          visit_off (λ m. m.enabled) (run_threshold matches id p now) id (lookup id monitors) state
            (λ m k. off id m k))
        ∙ run_generic_off p now ids state off

    -- When no monitor of the dict is enabled, a packet changes the state of no detector, and there is
    -- no hit: only the cache of candidates is brought up to date.
    pub evaluate_disabled :
        (e : Engine) (p : Packet) (token now : ℕ)
        → AllDisabled
        → evaluate matches e p token monitors now ≡ (refresh token monitors e, [])
    unfolding evaluate
    evaluate_disabled e p token now off = rw (run_fixed_off p now fixed_turns (e, []) off) (
        run_generic_off p now (refresh token monitors e).candidates (refresh token monitors e, [])
          off)
