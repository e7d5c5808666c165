-- ===== src/Wire/Nbns.antt =====
-- sniff4hound/sniffer.py: `decode_nbns_name`, and the encoding of RFC 1002, section 4.1, that it undoes.
use sniff4hound.Prelude.Text.{Text, is_space, rstrip_by}
use sniff4hound.Wire.Bytes.{Bytes}
use sniff4hound.Prelude.{
  ℕ, ◌+◌, ◌-◌, ◌*◌, ◌/◌, ◌%◌, ◌<◌, ◌≡◌, refl, ap, Bool, true, ◌&&◌, Option, none, some, [], ◌∷◌,
  arith, leb, nat_beq, if◌then◌else◌, length, All, number_eq, pair_eq,
}

-- One character of two bytes; `hi << 4 | lo` is a sum, as both are below 16.
abbrev pub is_nibble : ℕ → Bool
is_nibble b = leb 65 b && leb b 80

-- The loop over the pairs; none is the blank text of a byte that encodes nothing.
abbrev pub onto_chars : ℕ → Option Text → Option Text
onto_chars c none = none
onto_chars c (some chars) = some (c ∷ chars)

unfoldable pub decode_pairs : Bytes → Option Text
decode_pairs [] = some []
decode_pairs (hi ∷ []) = none
decode_pairs (hi ∷ lo ∷ rest) =
    let chars = onto_chars ((hi - 65) * 16 + (lo - 65)) (decode_pairs rest) in
    if is_nibble hi && is_nibble lo then chars else none

-- rstrip("\x00").rstrip()
unfoldable pub trim : Text → Text
trim chars = rstrip_by is_space (rstrip_by (nat_beq 0) chars)

abbrev pub trimmed : Option Text → Text
trimmed none = []
trimmed (some chars) = trim chars

unfoldable pub decode_nbns_name : Bytes → Text
decode_nbns_name encoded =
    if nat_beq (length encoded) 32 then trimmed (decode_pairs encoded) else []

-- First-level encoding: each half of a byte as a letter from `A`.
unfoldable pub encode_pairs : Text → Bytes
encode_pairs [] = []
encode_pairs (c ∷ chars) = (65 + c / 16) ∷ (65 + c % 16) ∷ encode_pairs chars

decode_pairs-encode_pairs :
    (chars : Text) → All (λ c. c < 256) chars → decode_pairs (encode_pairs chars) ≡ some chars
unfolding decode_pairs encode_pairs
decode_pairs-encode_pairs [] h = refl
decode_pairs-encode_pairs (c ∷ chars) h =
    let high : is_nibble (65 + c / 16) ≡ true = ground (arith, h.0) in
    let low : is_nibble (65 + c % 16) ≡ true = ground arith in
    let same : (65 + c / 16 - 65) * 16 + (65 + c % 16 - 65) ≡ c = omega arith in
    rw (decode_pairs-encode_pairs chars h.1) (rw high (rw low (ap (λ d. some (d ∷ chars)) same)))

encode_pairs-length : (chars : Text) → length (encode_pairs chars) ≡ 2 * length chars
unfolding encode_pairs
encode_pairs-length [] = omega arith
encode_pairs-length (c ∷ chars) = omega (arith, encode_pairs-length chars)

-- A name of sixteen bytes, encoded, is read as it was, without the zero bytes and then the spaces at its
-- end.
pub decode_nbns_name-encode_pairs :
    (chars : Text)
    → length chars ≡ 16
    → All (λ c. c < 256) chars
    → decode_nbns_name (encode_pairs chars) ≡ trim chars
unfolding decode_nbns_name
decode_nbns_name-encode_pairs chars size bytes =
    let whole : nat_beq (length (encode_pairs chars)) 32 ≡ true =
      ground (arith, encode_pairs-length chars) in
    rw whole (ap trimmed (decode_pairs-encode_pairs chars bytes))
