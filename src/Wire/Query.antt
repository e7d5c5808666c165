-- ===== src/Wire/Query.antt =====
-- The two readers of a DNS query agree on a query that is in plain form (sniff4hound/sniffer.py,
-- `extract_dns_query_name` and `parse_dns_message`).
use mathlib.Core.List.{append_assoc, append-nil}
use sniff4hound.Prelude.Text.{Text}
use sniff4hound.Wire.Bytes.{Bytes, byte_at, word_at, has_high_bits, is_ascii, is_printable}
use sniff4hound.Wire.DnsName.{
  name_of, query_labels, printable_name, extract_dns_query_name, read_dns_name,
}
use sniff4hound.Wire.DnsMessage.{
  Question, Message, max_jumps, read_questions, question_at, parse_dns_message,
}
use sniff4hound.Wire.RoundTrip.{encode, IsLabel, byte_at-append, slice_label, read_dns_name-encode}
use sniff4hound.Prelude.{
  ℕ, zero, suc, ◌+◌, ◌≤◌, ◌<◌, min, ◌≡◌, refl, sym, ap, ◌∙◌, subst, true, false, some, List, [],
  ◌∷◌, ◌++◌, map, arith, ltb, leb, nat_beq, if◌then◌else◌, length, All, number_eq, pair_eq,
  length-append,
}

-- A label that both readers take.
abbrev pub IsAsciiLabel : Text → Type 0
IsAsciiLabel label = IsLabel label × (is_ascii label ≡ true)

-- One round of the loop over a label that is whole.
query_round :
    (fuel : ℕ) (before : Bytes) (label rest : Bytes) (acc : List Text)
    → IsAsciiLabel label
    → length before + 1 + length label ≤ 512
    → query_labels (suc fuel) (before ++ (length label ∷ (label ++ rest))) (length before) acc
      ≡ query_labels fuel
          (before ++ (length label ∷ (label ++ rest)))
          (length before + 1 + length label)
          (acc ++ label ∷ [])
unfolding query_labels
query_round fuel before label rest acc is near =
    let payload = before ++ (length label ∷ (label ++ rest)) in
    let size : length payload ≡ length before + 1 + length label + length rest =
      length-append before (length label ∷ (label ++ rest))
      ∙ omega (arith, length-append label rest) in
    let past : leb (length payload) (length before) ≡ false = ground (arith, size) in
    let nonzero : nat_beq (length label) 0 ≡ false = ground (arith, is.0.0) in
    let low : has_high_bits (length label) ≡ false = ground (arith, is.0.1) in
    let whole : ltb (length payload) (length before + 1 + length label) ≡ false =
      ground (arith, size) in
    let early : ltb 512 (length before + 1 + length label) ≡ false = ground (arith, near) in
    rw (byte_at-append before (length label) (label ++ rest)) (
      rw (slice_label before (length label) label rest refl)
        (rw past (rw nonzero (rw low (rw whole (rw is.1 (rw early refl)))))))

query_end :
    (fuel : ℕ) (before rest : Bytes) (acc : List Text)
    → query_labels (suc fuel) (before ++ (0 ∷ rest)) (length before) acc ≡ some acc
unfolding query_labels
query_end fuel before rest acc =
    let payload = before ++ (0 ∷ rest) in
    let size : length payload ≡ length before + 1 + length rest =
      length-append before (0 ∷ rest) ∙ omega arith in
    let past : leb (length payload) (length before) ≡ false = ground (arith, size) in
    rw (byte_at-append before 0 rest) (rw past refl)

query_loop :
    (fuel : ℕ) (before : Bytes) (labels : List Text) (after : Bytes) (acc : List Text)
    → All IsAsciiLabel labels
    → length before + length (encode labels) ≤ 512
    → length labels < fuel
    → query_labels fuel (before ++ (encode labels ++ after)) (length before) acc
      ≡ some (acc ++ labels)
unfolding encode
query_loop zero before labels after acc are near enough = absurd (omega arith)
query_loop (suc fuel) before [] after acc are near enough =
    query_end fuel before after acc ∙ ap some (sym (append-nil acc))
query_loop (suc fuel) before (label ∷ labels) after acc are near enough =
    let front = length label ∷ label in
    let rest = encode labels ++ after in
    let wide : length (before ++ front) ≡ length before + 1 + length label =
      length-append before front ∙ omega arith in
    let long : length (label ++ encode labels) ≡ length label + length (encode labels) =
      length-append label (encode labels) in
    let later =
      query_loop fuel (before ++ front) labels after (acc ++ label ∷ []) are.1
        (omega (arith, wide, long)) (omega arith) in
    ap (λ t. query_labels (suc fuel) (before ++ (length label ∷ t)) (length before) acc)
      (append_assoc label (encode labels) after)
    ∙ query_round fuel before label rest acc are.0 (omega (arith, long))
    ∙ ap (λ p. query_labels fuel p (length before + 1 + length label) (acc ++ label ∷ []))
        (sym (append_assoc before front rest))
    ∙ ap (λ pos. query_labels fuel ((before ++ front) ++ rest) pos (acc ++ label ∷ [])) (sym wide)
    ∙ later
    ∙ ap some (append_assoc acc (label ∷ []) labels)

-- What a question that is whole is read as.
first_question :
    (n : ℕ) (payload : Bytes) (offset : ℕ) (name : Text) (resume : ℕ)
    → 1 ≤ n
    → offset < length payload
    → read_dns_name max_jumps payload offset ≡ some (name, resume)
    → resume + 4 ≤ length payload
    → (more : List Question) × ((read_questions n payload offset).0
        ≡ question_at payload name resume ∷ more)
unfolding read_questions
first_question zero payload offset name resume some_left here e fits = absurd (omega arith)
first_question (suc n) payload offset name resume some_left here e fits =
    let past : leb (length payload) offset ≡ false = ground arith in
    let whole : ltb (length payload) (resume + 4) ≡ false = ground arith in
    ((read_questions n payload (resume + 4)).0, rw past (rw (e, read_questions) (rw whole refl)))

-- The names of a message's questions.
abbrev pub question_names : Message → List Text
question_names parsed = map (λ question. question.name) parsed.questions

-- A query: a header of twelve bytes without the response bit and with a question, a name in plain form
-- that ends within 512 bytes, and its type and class.
pub record IsQuery (header : Bytes) (labels : List Text) (after : Bytes) : Type 0 where
  pub header_size : length header ≡ 12
  pub asks : byte_at (header ++ (encode labels ++ after)) 2 < 128
  pub counts : 1 ≤ word_at (header ++ (encode labels ++ after)) 4
  pub labels_fit : All IsAsciiLabel labels
  pub near : 12 + length (encode labels) ≤ 512
  pub few : length labels ≤ 128
  pub type_and_class : 4 ≤ length after
  pub printable : is_printable (name_of labels) ≡ true

encode-length : (labels : List Text) → length labels < length (encode labels)
unfolding encode
encode-length [] = omega arith
encode-length (label ∷ labels) =
    omega (arith, encode-length labels, length-append label (encode labels))

plain_labels : (labels : List Text) → All IsAsciiLabel labels → All IsLabel labels
plain_labels [] h = tt
plain_labels (label ∷ labels) h = (h.0.0, plain_labels labels h.1)

printed : (name : Text) → is_printable name ≡ true → (if is_printable name then name else []) ≡ name
printed name h = rw h refl

-- On a query in plain form the reader that takes only a query's name and the parser of whole messages
-- give the same name: the labels, joined, which is the first question of the message.
pub extract_dns_query_name-parse_dns_message :
    (ipv6_text : Bytes → Text) (header : Bytes) (labels : List Text) (after : Bytes)
    → IsQuery header labels after
    → (more : List Text) × ((extract_dns_query_name (header ++ (encode labels ++ after))
          ≡ name_of labels)
        × (question_names (parse_dns_message ipv6_text (header ++ (encode labels ++ after)))
            ≡ name_of labels ∷ more))
unfolding extract_dns_query_name parse_dns_message
extract_dns_query_name-parse_dns_message ipv6_text header labels after q =
    let payload = header ++ (encode labels ++ after) in
    let size : length payload ≡ 12 + length (encode labels) + length after =
      length-append header (encode labels ++ after)
      ∙ omega (arith, length-append (encode labels) after, q.header_size) in
    let read =
      read_dns_name-encode max_jumps header labels after (plain_labels labels q.labels_fit) q.few in
    let first =
      first_question (min (word_at payload 4) 32) payload (length header) (name_of labels)
        (length header + length (encode labels)) (omega (arith, q.counts))
        (omega (arith, size, q.header_size, encode-length labels)) read
        (omega (arith, size, q.header_size, q.type_and_class)) in
    let found =
      query_loop (length payload) header labels after [] q.labels_fit
        (omega (arith, q.header_size, q.near)) (omega (arith, size, encode-length labels)) in
    let labels_found : query_labels (length payload) payload 12 [] ≡ some labels =
      subst (λ at. query_labels (length payload) payload at [] ≡ some labels) q.header_size found in
    let named = ap printable_name labels_found ∙ printed (name_of labels) q.printable in
    let asked =
      subst
        (λ at.
          (read_questions (min (word_at payload 4) 32) payload at).0
          ≡ question_at payload (name_of labels) (length header + length (encode labels)) ∷ first.0)
        q.header_size first.1 in
    let long : ltb (length payload) 12 ≡ false = ground (arith, size) in
    let query : leb 128 (byte_at payload 2) ≡ false = ground (arith, q.asks) in
    let counted : ltb (word_at payload 4) 1 ≡ false = ground (arith, q.counts) in
    (
      map (λ question. question.name) first.0,
      (rw long (rw query (rw counted named)), rw long (ap (map (λ question. question.name)) asked)),
    )
