-- ===== src/Settings/Examples.antt =====
-- The settings at concrete inputs.
use sniff4hound.Prelude.{ℕ, ◌≡◌, refl, true, false, some, [], ◌∷◌, All, number_eq}
use sniff4hound.Prelude.Dict.{Dict, lookup}
use sniff4hound.Prelude.Text.{Text, text, list_eq, strip, is_space, lower}
use sniff4hound.Settings.{
  Value, string, float, infinite, null, boolean, int, unhandled_overflow, must_be_integer, ok, err,
}
use sniff4hound.Settings.Coerce.{
  limit_bounds, coerce_limit, coerce_limit_settings, coerce_pipeline_settings, bounded_int,
  pipeline_bounds,
}
use sniff4hound.Settings.Accepted.{
  LimitFate, coerce_limit_settings-LimitFate, coerce_limit_settings_infinite,
}

abbrev update : Dict Text Value
update =
    (text "ram_mb", string (text " 2_048 "))
    ∷ (text "cpu_percent", float (record { is_negative = false; size = 90 }))
    ∷ []

abbrev kept : Dict Text ℕ
kept = (text "cpu_percent", 90) ∷ (text "ram_mb", 2048) ∷ []

update_kept : coerce_limit_settings (some update) ≡ ok kept
unfolding coerce_limit_settings coerce_limit int strip is_space lookup
update_kept = refl

ram_bounds : lookup (text "ram_mb") limit_bounds ≡ some (0, 262144)
unfolding lookup limit_bounds
ram_bounds = refl

coerce_limit_settings-LimitFate_example :
    LimitFate 0 262144 (lookup (text "ram_mb") update) (lookup (text "ram_mb") kept)
coerce_limit_settings-LimitFate_example =
    coerce_limit_settings-LimitFate update kept (text "ram_mb") 0 262144 update_kept ram_bounds

abbrev one_update : Dict Text Value
one_update = (text "other", null) ∷ []

nothing_given :
    All
      (λ b.
        (value : Value)
        → lookup b.0 one_update ≡ some value
        → (n : ℕ) × (coerce_limit value b.0 b.1.0 b.1.1 ≡ ok n))
      limit_bounds
unfolding lookup limit_bounds
nothing_given =
    (λ v h. cc h, (λ v h. cc h, (λ v h. cc h, (λ v h. cc h, (λ v h. cc h, (λ v h. cc h, tt))))))

coerce_limit_settings_infinite_example :
    coerce_limit_settings (some ((text "ram_mb", infinite) ∷ [])) ≡ err unhandled_overflow
coerce_limit_settings_infinite_example =
    coerce_limit_settings_infinite (text "ram_mb") (0, 262144) ram_bounds

abbrev pipeline : Dict Text Value
pipeline = (text "persist_mode", string (text " All")) ∷ (text "jobs", string (text "+4")) ∷ []

pipeline_update :
    coerce_pipeline_settings (some pipeline) ≡ ok ((text "jobs", 4) ∷ [], some (text "all"))
unfolding coerce_pipeline_settings bounded_int pipeline_bounds int strip is_space lower lookup
pipeline_update = refl

jobs_bounds : lookup (text "jobs") pipeline_bounds ≡ some (1, 16)
unfolding lookup pipeline_bounds
jobs_bounds = refl

abbrev jobs_kept : Dict Text ℕ
jobs_kept = (text "jobs", 4) ∷ []

true_is_no_number :
    coerce_pipeline_settings (some ((text "jobs", boolean true) ∷ []))
    ≡ err (must_be_integer (text "jobs"))
unfolding coerce_pipeline_settings bounded_int pipeline_bounds int lookup
true_is_no_number = refl
