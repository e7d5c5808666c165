-- ===== src/Wire/Bytes.antt =====
-- Payloads as lists of bytes, with Python's indexing and slices (sniff4hound/sniffer.py).
use sniff4hound.Prelude.Text.{lower_char}
use sniff4hound.Prelude.{
  ℕ, ◌+◌, ◌-◌, ◌*◌, ◌/◌, ◌%◌, Bool, not, ◌&&◌, ◌||◌, List, [], ◌∷◌, ltb, leb, nat_beq,
  if◌then◌else◌, get_elem?, take, drop, any, get_or, number_eq, pair_eq,
}

abbrev pub Bytes : Type 0
Bytes = List ℕ

-- payload[i], which the readers ask for only inside the payload.
abbrev pub byte_at : Bytes → ℕ → ℕ
byte_at payload i = get_or (get_elem? payload i) 0

-- payload[i : j]
abbrev pub slice : Bytes → ℕ → ℕ → Bytes
slice payload i j = take (j - i) (drop i payload)

-- int.from_bytes(payload[i : i + 2], "big"), and of four bytes.
abbrev pub big_endian : ℕ → Bytes → ℕ
big_endian n [] = n
big_endian n (b ∷ bs) = big_endian (n * 256 + b) bs

abbrev pub word_at : Bytes → ℕ → ℕ
word_at payload i = big_endian 0 (slice payload i (i + 2))

-- `b & 0xC0` is all of those bits, and none of them.
abbrev pub is_pointer : ℕ → Bool
is_pointer b = nat_beq (b / 64 % 4) 3

abbrev pub has_high_bits : ℕ → Bool
has_high_bits b = not (nat_beq (b / 64 % 4) 0)

-- str.lower of a character of a byte.
abbrev pub lower_latin : ℕ → ℕ
lower_latin c = if leb 192 c && leb c 222 && not (nat_beq c 215) then c + 32 else lower_char c

-- bytes.isascii, and str.isprintable of a text of ASCII characters.
abbrev pub is_ascii : Bytes → Bool
is_ascii bytes = not (any (λ b. leb 128 b) bytes)

abbrev pub is_printable : Bytes → Bool
is_printable s = not (any (λ c. ltb c 32 || ltb 126 c) s)
