-- ===== src/Wire/DnsName.antt =====
-- sniff4hound/sniffer.py: `_read_dns_name`, which follows compression pointers, and
-- `extract_dns_query_name`, which refuses them. A byte decoded as ASCII or as Latin-1 is the
-- character of its number.
use sniff4hound.Prelude.Text.{Text, strip_char, join}
use sniff4hound.Wire.Bytes.{
  Bytes, byte_at, slice, word_at, is_pointer, has_high_bits, is_ascii, is_printable, lower_latin,
}
use sniff4hound.Prelude.{
  ℕ, zero, suc, ◌+◌, ◌*◌, ◌%◌, not, ◌||◌, Option, none, some, List, [], ◌∷◌, ◌++◌, map, ltb, leb,
  nat_beq, if◌then◌else◌, length, get_or, is_none, number_eq, pair_eq,
}

-- `".".join(labels).strip(".").lower()`
unfoldable pub name_of : List Text → Text
name_of labels = map lower_latin (strip_char 46 (join 46 labels))

-- The variables of the loop of `_read_dns_name`.
pub record Reading : Type 0 where
  pub labels : List Text
  pub jumps : ℕ
  pub resume_at : Option ℕ
  pub pos : ℕ

-- What a round does: `break` or `continue`.
pub data Round : Type 0 where
  breaks : Reading → Round
  goes_on : Reading → Round

abbrev pub at_pos : ℕ → Reading → Reading
at_pos pos s = record { labels = s.labels; jumps = s.jumps; resume_at = s.resume_at; pos = pos }

abbrev pub resume_or : ℕ → Reading → Option ℕ
resume_or pos s = if is_none s.resume_at then some pos else s.resume_at

-- The zero length.
abbrev pub end_of_name : Reading → Reading
end_of_name s = record {
  labels = s.labels;
  jumps = s.jumps;
  resume_at = resume_or (s.pos + 1) s;
  pos = s.pos + 1;
}

-- A pointer, with both its bytes there.
abbrev pub jump : ℕ → Reading → Reading
jump pos s = record {
  labels = s.labels;
  jumps = s.jumps + 1;
  resume_at = resume_or (s.pos + 2) s;
  pos = pos;
}

unfoldable pub follow : ℕ → Bytes → ℕ → Reading → Round
follow max_jumps payload b s =
    let pointer = b % 64 * 256 + byte_at payload (s.pos + 1) in
    if leb (length payload) (s.pos + 1)
    then breaks s
    else if ltb max_jumps (s.jumps + 1) || leb (length payload) pointer || nat_beq pointer s.pos
    then breaks (jump s.pos s)
    else goes_on (jump pointer s)

-- A label.
abbrev pub add_label : Bytes → ℕ → Reading → Reading
add_label payload b s = record {
  labels = s.labels ++ slice payload (s.pos + 1) (s.pos + 1 + b) ∷ [];
  jumps = s.jumps;
  resume_at = s.resume_at;
  pos = s.pos + 1 + b;
}

unfoldable pub read_label : Bytes → ℕ → Reading → Round
read_label payload b s =
    let longer = add_label payload b s in
    if ltb (length payload) (s.pos + 1 + b)
    then breaks (at_pos (s.pos + 1) s)
    else if ltb 128 (length longer.labels)
    then breaks longer
    else goes_on longer

unfoldable pub read_round : ℕ → Bytes → Reading → Round
read_round max_jumps payload s =
    let b = byte_at payload s.pos in
    if leb (length payload) s.pos
    then breaks s
    else if nat_beq b 0
    then breaks (end_of_name s)
    else if is_pointer b
    then follow max_jumps payload b s
    else read_label payload b s

-- The loop, a round for a unit of fuel; none is that the fuel is spent.
unfoldable pub read_loop : ℕ → ℕ → Bytes → Reading → Option Reading
read_loop zero max_jumps payload s = none
read_loop (suc fuel) max_jumps payload s = elim (read_round max_jumps payload s) [
  | breaks last ↦ some last
  | goes_on next ↦ read_loop fuel max_jumps payload next
]

-- A round that goes on has one jump more, of `max_jumps`, or one label more, of 128.
abbrev pub rounds : ℕ → ℕ
rounds max_jumps = max_jumps + 129

abbrev pub beginning : ℕ → Reading
beginning offset = record { labels = []; jumps = 0; resume_at = none; pos = offset }

abbrev pub read_result : Option Reading → Option (Text × ℕ)
read_result none = none
read_result (some s) = some (name_of s.labels, get_or s.resume_at s.pos)

unfoldable pub read_dns_name : ℕ → Bytes → ℕ → Option (Text × ℕ)
read_dns_name max_jumps payload offset =
    read_result (read_loop (rounds max_jumps) max_jumps payload (beginning offset))

-- The loop of `extract_dns_query_name`: none is the blank text of a name that it refuses. Each round
-- reads a byte, so the payload's length is fuel enough.
unfoldable pub query_labels : ℕ → Bytes → ℕ → List Text → Option (List Text)
query_labels zero payload offset labels = some labels
query_labels (suc fuel) payload offset labels =
    let b = byte_at payload offset in
    let label = slice payload (offset + 1) (offset + 1 + b) in
    let rest = query_labels fuel payload (offset + 1 + b) (labels ++ label ∷ []) in
    if leb (length payload) offset || nat_beq b 0
    then some labels
    else if has_high_bits b
        || ltb (length payload) (offset + 1 + b)
        || not (is_ascii label)
        || ltb 512 (offset + 1 + b)
    then none
    else rest

abbrev pub printable_name : Option (List Text) → Text
printable_name none = []
printable_name (some labels) = let name = name_of labels in if is_printable name then name else []

unfoldable pub extract_dns_query_name : Bytes → Text
extract_dns_query_name payload =
    if ltb (length payload) 12 || leb 128 (byte_at payload 2) || ltb (word_at payload 4) 1
    then []
    else printable_name (query_labels (length payload) payload 12 [])
