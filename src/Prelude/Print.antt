-- ===== src/Prelude/Print.antt =====
-- What Python prints: a number in decimal, a sorted list of texts, texts joined by a text.
use Prim.Native.Nat.{ℕ, zero, suc, ◌+◌, ◌/◌, ◌%◌}
use mathlib.Core.Path.{◌≡◌, refl}
use mathlib.Core.Bool.{Bool, true, false, ◌&&◌, ◌||◌}
use mathlib.Core.List.{List, [], ◌∷◌, ◌++◌}
use sniff4hound.Prelude.Tests.{ltb, nat_beq, if◌then◌else◌}
use sniff4hound.Prelude.Text.{Text, text}

-- The digits of a number before a text. A number has at most as many digits as it counts, and one.
abbrev pub decimal_onto : ℕ → ℕ → Text → Text
decimal_onto zero n rest = rest
decimal_onto (suc fuel) n rest =
    let digits = (48 + n % 10) ∷ rest in
    elim (ltb n 10) [ true ↦ digits | false ↦ decimal_onto fuel (n / 10) digits ]

-- str(n)
unfoldable pub decimal : ℕ → Text
decimal n = decimal_onto (suc n) n []

-- s <= t, by code points.
abbrev pub text_leb : Text → Text → Bool
text_leb [] t = true
text_leb (c ∷ s) [] = false
text_leb (c ∷ s) (d ∷ t) = ltb c d || nat_beq c d && text_leb s t

abbrev pub insert_sorted : Text → List Text → List Text
insert_sorted t [] = t ∷ []
insert_sorted t (u ∷ us) = if text_leb t u then t ∷ u ∷ us else u ∷ insert_sorted t us

-- sorted(texts)
unfoldable pub sorted : List Text → List Text
sorted [] = []
sorted (t ∷ ts) = insert_sorted t (sorted ts)

-- sep.join(texts)
unfoldable pub join_by : Text → List Text → Text
join_by sep [] = []
join_by sep (t ∷ []) = t
join_by sep (t ∷ u ∷ us) = t ++ sep ++ join_by sep (u ∷ us)

decimal_example : decimal 5060 ≡ text "5060"
unfolding decimal
decimal_example = refl

sorted_example :
    join_by (text ", ") (sorted (text "b" ∷ text "a" ∷ text "ab" ∷ [])) ≡ text "a, ab, b"
unfolding sorted join_by
sorted_example = refl
