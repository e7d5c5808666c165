-- ===== src/Wire/DnsMessage.antt =====
-- sniff4hound/sniffer.py: `parse_dns_message` with `_dns_rdata_preview`, and `_dns_message_summary`.
-- `str(ipaddress.IPv6Address(rdata))` is a function of the sixteen bytes.
use sniff4hound.Prelude.Dict.{Dict, lookup}
use sniff4hound.Prelude.Text.{Text, text}
use sniff4hound.Prelude.Print.{decimal, join_by}
use sniff4hound.Wire.Bytes.{Bytes, slice, word_at, big_endian}
use sniff4hound.Wire.DnsName.{read_dns_name}
use sniff4hound.Prelude.{
  ℕ, zero, suc, ◌+◌, ◌/◌, ◌%◌, min, Bool, false, ◌&&◌, Option, none, some, List, [], ◌∷◌, ◌++◌, map,
  ltb, leb, nat_beq, if◌then◌else◌, length, take, drop, get_or, number_eq, pair_eq, elem,
}

-- The default of `max_jumps`.
abbrev pub max_jumps : ℕ
max_jumps = 20

-- bytes.hex
abbrev pub hex_char : ℕ → ℕ
hex_char n = if ltb n 10 then 48 + n else 87 + n

abbrev pub hex : Bytes → Text
hex [] = []
hex (b ∷ bytes) = hex_char (b / 16) ∷ hex_char (b % 16) ∷ hex bytes

-- str(ipaddress.IPv4Address(rdata))
unfoldable pub ipv4_text : Bytes → Text
ipv4_text rdata = join_by (text ".") (map decimal rdata)

-- The strings of a TXT record, each after its length, with U+FFFD for what is not ASCII. Each takes a
-- byte, so the length is fuel enough.
abbrev pub ascii_char : ℕ → ℕ
ascii_char b = if ltb b 128 then b else 65533

unfoldable pub txt_strings : ℕ → Bytes → List Text
txt_strings zero rdata = []
txt_strings (suc fuel) [] = []
txt_strings (suc fuel) (size ∷ rest) =
    map ascii_char (take size rest) ∷ txt_strings fuel (drop size rest)

-- The name that a loop without end would not give; it never is (Wire.Total).
abbrev pub name_or_blank : Option (Text × ℕ) → Text
name_or_blank none = []
name_or_blank (some (name, resume)) = name

unfoldable pub rdata_preview : (Bytes → Text) → ℕ → Bytes → Bytes → ℕ → Text
rdata_preview ipv6_text rtype rdata payload rdata_offset =
    if nat_beq rtype 1 && nat_beq (length rdata) 4
    then ipv4_text rdata
    else if nat_beq rtype 28 && nat_beq (length rdata) 16
    then ipv6_text rdata
    else if elem rtype (2 ∷ 5 ∷ 12 ∷ [])
    then name_or_blank (read_dns_name max_jumps payload rdata_offset)
    else if nat_beq rtype 16
    then join_by (text " ") (txt_strings (length rdata) rdata)
    else take 64 (hex rdata)

pub record Question : Type 0 where
  pub name : Text
  pub qtype : ℕ
  pub qclass : ℕ

pub record Answer : Type 0 where
  pub name : Text
  pub qtype : ℕ
  pub ttl : ℕ
  pub rdata : Text

pub record Message : Type 0 where
  pub is_response : Bool
  pub rcode : ℕ
  pub questions : List Question
  pub answers : List Answer

unfoldable pub no_message : Message
no_message = record { is_response = false; rcode = 0; questions = []; answers = [] }

-- The loop over the questions, with the offset that it leaves: after a name whose type and class are cut
-- off, that is the offset behind the name.
abbrev pub question_at : Bytes → Text → ℕ → Question
question_at payload name offset = record {
  name = name;
  qtype = word_at payload offset;
  qclass = word_at payload (offset + 2);
}

unfoldable pub read_questions : ℕ → Bytes → ℕ → List Question × ℕ
read_questions zero payload offset = ([], offset)
read_questions (suc n) payload offset =
    if leb (length payload) offset
    then ([], offset)
    else elim (read_dns_name max_jumps payload offset) [
      | none ↦ ([], offset)
      | some (name, resume) ↦
          let rest = read_questions n payload (resume + 4) in
          if ltb (length payload) (resume + 4)
          then ([], resume)
          else (question_at payload name resume ∷ rest.0, rest.1)
    ]

-- The loop over the answers.
abbrev pub rdata_at : Bytes → ℕ → ℕ → Bytes
rdata_at payload offset size =
    if leb (offset + size) (length payload) then slice payload offset (offset + size) else []

abbrev pub answer_at : (Bytes → Text) → Bytes → Text → ℕ → Answer
answer_at ipv6_text payload name offset =
    let rtype = word_at payload offset in
    let rdata = rdata_at payload (offset + 10) (word_at payload (offset + 8)) in
    record {
      name = name;
      qtype = rtype;
      ttl = big_endian 0 (slice payload (offset + 4) (offset + 8));
      rdata = rdata_preview ipv6_text rtype rdata payload (offset + 10);
    }

unfoldable pub read_answers : (Bytes → Text) → ℕ → Bytes → ℕ → List Answer
read_answers ipv6_text zero payload offset = []
read_answers ipv6_text (suc n) payload offset =
    if leb (length payload) offset then [] else elim (read_dns_name max_jumps payload offset) [
      | none ↦ []
      | some (name, resume) ↦
          let rest =
            read_answers ipv6_text n payload (resume + 10 + word_at payload (resume + 8)) in
          if ltb (length payload) (resume + 10)
          then []
          else answer_at ipv6_text payload name resume ∷ rest
    ]

unfoldable pub parse_dns_message : (Bytes → Text) → Bytes → Message
parse_dns_message ipv6_text payload =
    let flags = word_at payload 2 in
    let questions = read_questions (min (word_at payload 4) 32) payload 12 in
    if ltb (length payload) 12 then no_message else record {
      is_response = leb 32768 flags;
      rcode = flags % 16;
      questions = questions.0;
      answers = read_answers ipv6_text (min (word_at payload 6) 32) payload questions.1;
    }

abbrev pub dns_qtype_names : Dict ℕ Text
dns_qtype_names =
    (1, text "A")
    ∷ (2, text "NS")
    ∷ (5, text "CNAME")
    ∷ (6, text "SOA")
    ∷ (12, text "PTR")
    ∷ (15, text "MX")
    ∷ (16, text "TXT")
    ∷ (28, text "AAAA")
    ∷ (33, text "SRV")
    ∷ (255, text "ANY")
    ∷ []

abbrev pub dns_rcode_names : Dict ℕ Text
dns_rcode_names =
    (0, text "NOERROR")
    ∷ (1, text "FORMERR")
    ∷ (2, text "SERVFAIL")
    ∷ (3, text "NXDOMAIN")
    ∷ (4, text "NOTIMP")
    ∷ (5, text "REFUSED")
    ∷ []

-- names.get(n, str(n))
abbrev pub named : Dict ℕ Text → ℕ → Text
named names n = get_or (lookup n names) (decimal n)

abbrev pub base_text : Text → Bool → List Question → Text
base_text prefix is_response [] = prefix ++ text " message"
base_text prefix is_response (question ∷ questions) =
    prefix
    ++ text " "
    ++ (if is_response then text "response" else text "query")
    ++ text " "
    ++ question.name
    ++ text " "
    ++ named dns_qtype_names question.qtype

abbrev pub first_answer : List Answer → Text
first_answer [] = []
first_answer (answer ∷ answers) = text " -> " ++ answer.rdata

unfoldable pub dns_message_summary : Text → Message → Text
dns_message_summary prefix parsed =
    let base = base_text prefix parsed.is_response parsed.questions in
    let rcode =
      if nat_beq parsed.rcode 0
      then []
      else text " [" ++ named dns_rcode_names parsed.rcode ++ text "]" in
    if parsed.is_response then base ++ first_answer parsed.answers ++ rcode else base
