-- ===== src/Settings.antt =====
-- The values that a client sends as settings, and Python's `int` on them: sniff4hound/packet_pipeline.py
-- (coerce_pipeline_settings, _bounded_int) and sniff4hound/resource_guard.py (coerce_limit_settings).
-- A text stands for a number by its ASCII digits.
pub mod Coerce
pub mod Fates
pub mod Accepted
pub mod Pipeline
mod Examples
use sniff4hound.Prelude.{
  ℕ, zero, suc, ◌+◌, ◌-◌, ◌*◌, Bool, true, false, not, ◌&&◌, ◌||◌, Option, none, some, List, [],
  ◌∷◌, ltb, leb, nat_beq, if◌then◌else◌, ◌==◌, number_eq,
}
use sniff4hound.Prelude.Text.{Text, text, strip, list_eq}

-- An integer by its sign and its size.
pub record Signed : Type 0 where
  pub is_negative : Bool
  pub size : ℕ

-- A value of a request: an integer, a finite float by what `int` leaves of it, and the rest.
pub data Value : Type 0 where
  null infinite not_a_number other : Value
  boolean : Bool → Value
  integer float : Signed → Value
  string : Text → Value

-- How `int(value)` ends.
pub data Parsed : Type 0 where
  parsed : Signed → Parsed
  value_error overflow_error type_error : Parsed

abbrev pub is_digit : ℕ → Bool
is_digit c = leb 48 c && leb c 57

-- Digits, with single underscores between them.
abbrev pub digits_of : Bool → ℕ → Text → Option ℕ
digits_of after_digit n [] = if after_digit then some n else none
digits_of after_digit n (c ∷ s) =
    if is_digit c || nat_beq c 95 && after_digit
    then digits_of (is_digit c) (if is_digit c then n * 10 + (c - 48) else n) s
    else none

abbrev pub signed : Bool → Option ℕ → Parsed
signed negative none = value_error
signed negative (some n) = parsed (record { is_negative = negative; size = n })

abbrev pub parse_signed : Text → Parsed
parse_signed [] = value_error
parse_signed (c ∷ s) =
    if nat_beq c 45
    then signed true (digits_of false 0 s)
    else (if nat_beq c 43
        then signed false (digits_of false 0 s)
        else signed false (digits_of false 0 (c ∷ s)))

-- int(value)
unfoldable pub int : Value → Parsed
int null = type_error
int other = type_error
int infinite = overflow_error
int not_a_number = value_error
int (boolean b) = parsed (record { is_negative = false; size = if b then 1 else 0 })
int (integer n) = parsed n
int (float n) = parsed n
int (string s) = parse_signed (strip s)

pub data Error : Type 0 where
  must_be_object unhandled_overflow : Error
  must_be_number must_be_integer : Text → Error
  must_be_between : Text → ℕ → ℕ → Error
  must_be_one_of : Text → Error

pub data Result (A : Type 0) : Type 0 where
  ok : A → Result A
  err : Error → Result A

-- isinstance(value, bool) or not isinstance(value, (int, float, str))
abbrev pub is_numeric : Value → Bool
is_numeric null = false
is_numeric other = false
is_numeric infinite = true
is_numeric not_a_number = true
is_numeric (boolean b) = false
is_numeric (integer n) = true
is_numeric (float n) = true
is_numeric (string s) = true
