-- ===== src/Prelude/Text.antt =====
-- Python's texts as lists of code points, and the methods of `str` that the program uses. `lower` is
-- that of the ASCII letters, and leaves other characters alone.
use Prim.Native.Nat.{ℕ, ◌+◌}
use Prim.Native.Char.{code}
use Prim.Native.String.{String}
use mathlib.Core.Path.{◌≡◌, refl, sym, ap, ap₂, ◌∙◌}
use mathlib.Core.Logic.{◌↔◌, ◌≢◌, inl, inr}
use mathlib.Core.Bool.{Bool, true, false, ◌&&◌, ◌||◌}
use mathlib.Core.Option.{Option, none, some}
use mathlib.Core.List.{List, [], ◌∷◌, ◌++◌, map}
use native.Mathlib.Omega.{arith}
use sniff4hound.Prelude.Tests.{
  number_eq, PyEq, ◌==◌, ltb, leb, nat_beq, nat_beq_iff, if◌then◌else◌, Bool-cases,
}

abbrev pub Text : Type 0
Text = List ℕ

-- A literal.
abbrev pub text : String → Text
text String.[] = []
text (String.◌∷◌ c s) = code c ∷ text s

-- Texts and lists are compared item by item.
abbrev pub list_beq {ℓ} : {A : Type ℓ} ⦃e : PyEq A⦄ → List A → List A → Bool
list_beq [] [] = true
list_beq [] (y ∷ ys) = false
list_beq (x ∷ xs) [] = false
list_beq (x ∷ xs) (y ∷ ys) = x == y && list_beq xs ys

pub list_beq_iff {ℓ} :
    {A : Type ℓ} ⦃e : PyEq A⦄ (xs ys : List A) → (list_beq xs ys ≡ true) ↔ (xs ≡ ys)
list_beq_iff [] [] = (λ h. refl, λ h. refl)
list_beq_iff [] (y ∷ ys) = (λ h. cc, λ h. cc)
list_beq_iff (x ∷ xs) [] = (λ h. cc, λ h. cc)
list_beq_iff ⦃e⦄ (x ∷ xs) (y ∷ ys) =
    let both = e.same_iff x y in
    let rest = list_beq_iff xs ys in
    (λ h. ground (arith, both, rest), λ h. ground (arith, both, rest))

instance abbrev pub list_eq {ℓ} : {A : Type ℓ} ⦃e : PyEq A⦄ → PyEq (List A)
list_eq = record { same = list_beq; same_iff = list_beq_iff }

-- str.isspace of one character.
unfoldable pub is_space : ℕ → Bool
is_space c =
    leb 9 c && leb c 13
    || leb 28 c && leb c 32
    || nat_beq c 133
    || nat_beq c 160
    || nat_beq c 5760
    || leb 8192 c && leb c 8202
    || nat_beq c 8232
    || nat_beq c 8233
    || nat_beq c 8239
    || nat_beq c 8287
    || nat_beq c 12288

-- Strip from the left, and from the right, the items that a test accepts.
abbrev pub lstrip_by : (ℕ → Bool) → Text → Text
lstrip_by p [] = []
lstrip_by p (c ∷ s) = if p c then lstrip_by p s else c ∷ s

abbrev pub cons_unless : (ℕ → Bool) → ℕ → Text → Text
cons_unless p c [] = if p c then [] else c ∷ []
cons_unless p c (d ∷ s) = c ∷ d ∷ s

abbrev pub rstrip_by : (ℕ → Bool) → Text → Text
rstrip_by p [] = []
rstrip_by p (c ∷ s) = cons_unless p c (rstrip_by p s)

-- s.strip(), and s.strip(c) for one character.
unfoldable pub strip : Text → Text
unfolding is_space
strip s = rstrip_by is_space (lstrip_by is_space s)

unfoldable pub strip_char : ℕ → Text → Text
strip_char c s = rstrip_by (nat_beq c) (lstrip_by (nat_beq c) s)

abbrev pub is_upper_letter : ℕ → Bool
is_upper_letter c = leb 65 c && leb c 90

abbrev pub lower_char : ℕ → ℕ
lower_char c = if is_upper_letter c then c + 32 else c

unfoldable pub lower : Text → Text
lower = map lower_char

abbrev pub is_empty {ℓ} : {A : Type ℓ} → List A → Bool
is_empty [] = true
is_empty (x ∷ xs) = false

-- `a or b` on texts.
abbrev pub or_else : Text → Text → Text
or_else [] t = t
or_else (c ∷ s) t = c ∷ s

-- `str(value or "")` of an optional text.
abbrev pub or_blank : Option Text → Text
or_blank none = []
or_blank (some s) = s

-- s.split(c) for one character: the pieces, never none.
abbrev pub onto_first : ℕ → List Text → List Text
onto_first c [] = (c ∷ []) ∷ []
onto_first c (p ∷ ps) = (c ∷ p) ∷ ps

unfoldable pub split : ℕ → Text → List Text
split sep [] = [] ∷ []
split sep (c ∷ s) =
    let pieces = split sep s in if nat_beq c sep then [] ∷ pieces else onto_first c pieces

-- sep.join(pieces)
unfoldable pub join : ℕ → List Text → Text
join sep [] = []
join sep (p ∷ []) = p
join sep (p ∷ q ∷ ps) = p ++ sep ∷ join sep (q ∷ ps)

-- t in s
unfoldable pub starts_with : Text → Text → Bool
starts_with [] s = true
starts_with (c ∷ p) [] = false
starts_with (c ∷ p) (d ∷ s) = nat_beq c d && starts_with p s

unfoldable pub contains : Text → Text → Bool
unfolding starts_with
contains t [] = starts_with t []
contains t (c ∷ s) = starts_with t (c ∷ s) || contains t s

strip_example : strip (text " a b ") ≡ text "a b"
unfolding strip
strip_example = refl

split_example : split b'.' (text "a.b.") ≡ text "a" ∷ text "b" ∷ [] ∷ []
unfolding split
split_example = refl

pub onto_first-ne : (c : ℕ) (ps : List Text) → onto_first c ps ≢ []
onto_first-ne c [] h = cc
onto_first-ne c (p ∷ ps) h = cc

split-ne : (sep : ℕ) (s : Text) → split sep s ≢ []
unfolding split
split-ne sep [] h = cc
split-ne sep (c ∷ s) h = elim (Bool-cases (nat_beq c sep)) [
  | inl hit ↦ cc (rw hit at h)
  | inr miss ↦ onto_first-ne c (split sep s) (rw miss at h)
]

pub join_blank : (sep : ℕ) (ps : List Text) → ps ≢ [] → join sep ([] ∷ ps) ≡ sep ∷ join sep ps
unfolding join
join_blank sep [] h = absurd (h refl)
join_blank sep (p ∷ ps) h = refl

pub join-onto_first :
    (sep c : ℕ) (ps : List Text) → ps ≢ [] → join sep (onto_first c ps) ≡ c ∷ join sep ps
unfolding join
join-onto_first sep c [] h = absurd (h refl)
join-onto_first sep c (p ∷ []) h = refl
join-onto_first sep c (p ∷ q ∷ ps) h = refl

-- Splitting and joining undo each other.
pub join-split : (sep : ℕ) (s : Text) → join sep (split sep s) ≡ s
unfolding split
join-split sep [] = unfold join in refl
join-split sep (c ∷ s) = elim (Bool-cases (nat_beq c sep)) [
  | inl hit ↦ rw hit (
      join_blank sep (split sep s) (split-ne sep s)
      ∙ ap₂ (◌∷◌) (sym ((nat_beq_iff c sep).0 hit)) (join-split sep s))
  | inr miss ↦
      rw miss (join-onto_first sep c (split sep s) (split-ne sep s) ∙ ap (◌∷◌ c) (join-split sep s))
]

lower_char_twice : (c : ℕ) → lower_char (lower_char c) ≡ lower_char c
lower_char_twice c = ground arith

pub lower-lower : (s : Text) → lower (lower s) ≡ lower s
unfolding lower
lower-lower [] = refl
lower-lower (c ∷ s) = rw (lower_char_twice c, lower-lower s)

pub contains-text : (s t : Text) → starts_with s (s ++ t) ≡ true
unfolding starts_with
contains-text [] t = refl
contains-text (c ∷ s) t = ground (arith, contains-text s t)

-- secrets.compare_digest on texts: none is the TypeError that it raises when one is not ASCII.
abbrev pub is_ascii : Text → Bool
is_ascii [] = true
is_ascii (c ∷ s) = ltb c 128 && is_ascii s

abbrev pub compare_digest : Text → Text → Option Bool
compare_digest a b = if is_ascii a && is_ascii b then some (a == b) else none
