-- ===== src/History/Bounds.antt =====
-- sniff4hound/history.py: how many observations a DNS packet makes, how long they are, and that no
-- question is lost.
use sniff4hound.Prelude.{
  ℕ, zero, suc, ◌≢◌, ◌⊎◌, inl, inr, Bool-cases, ◌*◌, ◌≤◌, ◌<◌, ◌≡◌, refl, sym, subst, Bool, true,
  false, ◌&&◌, ◌||◌, Option, none, some, List, [], ◌∷◌, ◌++◌, arith, ltb, leb, if◌then◌else◌,
  length, take, any, All, All-append, length-append, length-take, get_elem?, ◌==◌, number_eq,
  same_refl, if_elim,
}
use sniff4hound.Prelude.Text.{
  Text, text, or_else, list_beq_iff, strip, strip_char, lower, or_blank, is_empty, list_eq,
}
use sniff4hound.History.{
  max_domain_length, max_answer_length, max_records_per_packet, normalize_domain, Answer, Question,
  Records, DnsPacket, DnsObservation, objects, build, answer_data, type_of, ttl_of, from_answers,
  from_questions, answer_observations, question_observations, is_described, record_observations,
  dns_observations,
}

normalize_domain_short : (name : Option Text) → length (normalize_domain name) ≤ max_domain_length
unfolding normalize_domain
normalize_domain_short name =
    let domain = lower (strip_char b'.' (strip (or_blank name))) in
    if_elim {A = Text} {x = domain} {y = []} (λ d. length d ≤ max_domain_length)
      (ltb 0 (length domain) && leb (length domain) max_domain_length) (λ h. ground arith)
      (λ h. omega arith)

length_pos : (s : Text) → is_empty s ≡ false → 0 < length s
length_pos [] h = cc
length_pos (c ∷ s) h = omega arith

-- An observation says which of the packet's addresses asked and which answered, and its texts have
-- the lengths that the database allows.
pub record Sound (p : DnsPacket) (r : Records) (o : DnsObservation) : Type 0 where
  pub named : 0 < length o.domain
  pub short : length o.domain ≤ max_domain_length
  pub answer_short : length o.answer ≤ max_answer_length
  pub asked : o.client ≡ strip (or_blank (if r.is_response then p.dst_ip else p.src_ip))
  pub answered : o.resolver ≡ strip (or_blank (if r.is_response then p.src_ip else p.dst_ip))

build-Sound :
    (p : DnsPacket) (r : Records) (name : Option Text) (record_type answer : Text) (ttl : Option ℕ)
    → is_empty (normalize_domain name) ≡ false
    → length answer ≤ max_answer_length
    → Sound p r (build p r (normalize_domain name) record_type answer ttl)
unfolding build
build-Sound p r name record_type answer ttl h short = record {
  named = length_pos (normalize_domain name) h;
  short = normalize_domain_short name;
  answer_short = short;
  asked = side r.is_response p.dst_ip p.src_ip;
  answered = side r.is_response p.src_ip p.dst_ip;
}
  where
    side :
        (b : Bool) (x y : Option Text)
        → (if b then strip (or_blank x) else strip (or_blank y))
          ≡ strip (or_blank (if b then x else y))
    side true x y = refl
    side false x y = refl

no_or : (a b : Bool) → (a || b) ≡ false → a ≡ false
no_or true b h = cc
no_or false b h = refl

from_answers-Sound :
    (p : DnsPacket) (r : Records) (answers : List Answer)
    → All (Sound p r) (from_answers p r answers)
unfolding from_answers
from_answers-Sound p r [] = tt
from_answers-Sound p r (a ∷ answers) =
    let rest = from_answers-Sound p r answers in
    let bad = is_empty (normalize_domain a.name) || is_empty (answer_data a) in
    let o =
      build p r (normalize_domain a.name) (type_of a.record_type) (answer_data a) (ttl_of a.ttl) in
    if_elim {A = List DnsObservation} {x = from_answers p r answers}
      {y = o ∷ from_answers p r answers} (All (Sound p r)) bad (λ h. rest)
      (λ h. (
        build-Sound p r a.name (type_of a.record_type) (answer_data a) (ttl_of a.ttl)
            (no_or (is_empty (normalize_domain a.name)) (is_empty (answer_data a)) h)
            (omega (arith, length-take max_answer_length (strip (or_blank a.data_)))),
        rest,
      ))

from_questions-Sound :
    (p : DnsPacket) (r : Records) (questions : List Question)
    → All (Sound p r) (from_questions p r questions)
unfolding from_questions
from_questions-Sound p r [] = tt
from_questions-Sound p r (q ∷ questions) =
    let rest = from_questions-Sound p r questions in
    let o = build p r (normalize_domain q.name) (type_of q.record_type) [] none in
    if_elim {A = List DnsObservation} {x = from_questions p r questions}
      {y = o ∷ from_questions p r questions} (All (Sound p r)) (is_empty (normalize_domain q.name))
      (λ h. rest)
      (λ h. (build-Sound p r q.name (type_of q.record_type) [] none h (omega arith), rest))

length-from_answers :
    (p : DnsPacket) (r : Records) (answers : List Answer)
    → length (from_answers p r answers) ≤ length answers
unfolding from_answers
length-from_answers p r [] = omega arith
length-from_answers p r (a ∷ answers) = ground (arith, length-from_answers p r answers)

length-from_questions :
    (p : DnsPacket) (r : Records) (questions : List Question)
    → length (from_questions p r questions) ≤ length questions
unfolding from_questions
length-from_questions p r [] = omega arith
length-from_questions p r (q ∷ questions) = ground (arith, length-from_questions p r questions)

-- Every observation of a packet is sound, and there are at most twice as many as the records that are
-- looked at of each kind.
pub dns_observations-Sound :
    (p : DnsPacket) (r : Records)
    → p.records ≡ some r
    → All (Sound p r) (dns_observations p)
      × (length (dns_observations p) ≤ 2 * max_records_per_packet)
unfolding dns_observations
dns_observations-Sound p r e =
    let answers = take max_records_per_packet (objects r.answers) in
    let questions = take max_records_per_packet (objects r.questions) in
    let found = answer_observations p r in
    let asked = question_observations p r in
    let few : length found ≤ max_records_per_packet = omega (
      arith,
      length-from_answers p r answers,
      length-take max_records_per_packet (objects r.answers),
    ) in
    let few_asked : length asked ≤ max_records_per_packet = omega (
      arith,
      length-from_questions p r questions,
      length-take max_records_per_packet (objects r.questions),
    ) in
    let P : List DnsObservation → Type 0 =
      λ l. All (Sound p r) l × (length l ≤ 2 * max_records_per_packet) in
    subst (λ m. P (record_observations p m)) (sym e)
      (if_elim {A = List DnsObservation} {x = found} {y = found ++ asked} P (is_described r found)
        (λ h. (from_answers-Sound p r answers, omega arith))
        (λ h. (
          All-append (Sound p r) found asked (from_answers-Sound p r answers)
              (from_questions-Sound p r questions),
          omega (arith, length-append found asked),
        )))

-- Does the list have an observation without an answer for the domain?
abbrev pub asks_for : Text → DnsObservation → Bool
asks_for domain o = o.domain == domain && is_empty o.answer

any-append :
    (t : DnsObservation → Bool) (xs ys : List DnsObservation)
    → any t ys ≡ true
    → any t (xs ++ ys) ≡ true
any-append t [] ys h = h
any-append t (x ∷ xs) ys h = ground (arith, any-append t xs ys h)

any-from_questions :
    (p : DnsPacket) (r : Records) (questions : List Question) (i : ℕ) (q : Question)
    → get_elem? questions i ≡ some q
    → is_empty (normalize_domain q.name) ≡ false
    → any (asks_for (normalize_domain q.name)) (from_questions p r questions) ≡ true
unfolding from_questions build
any-from_questions p r [] i q e h = cc
any-from_questions p r (k ∷ questions) zero q e h =
    let at : k ≡ q = cc in rw (at, h, same_refl (normalize_domain q.name)) refl
any-from_questions p r (k ∷ questions) (suc i) q e h =
    ground (arith, any-from_questions p r questions i q e h)

not_same : (s t : Text) → s ≢ t → (s == t) ≡ false
not_same s t h = elim (Bool-cases (s == t)) [
  | inl same ↦ absurd (h ((list_beq_iff s t).0 same))
  | inr differs ↦ differs
]

failed_code :
    (rcode : Text)
    → rcode ≢ []
    → rcode ≢ text "NOERROR"
    → (or_else rcode (text "NOERROR") == text "NOERROR") ≡ false
failed_code [] given failed = absurd (given refl)
failed_code (c ∷ rcode) given failed = not_same (c ∷ rcode) (text "NOERROR") failed

-- The packet is no successful response that carried records: a query, a response with another code than
-- NOERROR, or one without records for a valid name.
abbrev pub Unanswered : DnsPacket → Records → Type 0
Unanswered p r =
    (r.is_response ≡ false)
    ⊎ (((or_blank r.rcode ≢ []) × (or_blank r.rcode ≢ text "NOERROR"))
        ⊎ (answer_observations p r ≡ []))

Unanswered-is_described :
    (p : DnsPacket) (r : Records)
    → Unanswered p r
    → is_described r (answer_observations p r) ≡ false
Unanswered-is_described p r (inl query) = rw query refl
Unanswered-is_described p r (inr (inl (given, failed))) =
    let code = failed_code (or_blank r.rcode) given failed in ground (arith, code)
Unanswered-is_described p r (inr (inr nothing)) = ground (arith, nothing)

-- A question for a valid name, among those that are looked at, leaves an observation without an
-- answer for that name, unless the packet is a successful response that carried records.
pub dns_observations-asks_for :
    (p : DnsPacket) (r : Records) (i : ℕ) (q : Question)
    → p.records ≡ some r
    → Unanswered p r
    → get_elem? (take max_records_per_packet (objects r.questions)) i ≡ some q
    → is_empty (normalize_domain q.name) ≡ false
    → any (asks_for (normalize_domain q.name)) (dns_observations p) ≡ true
unfolding dns_observations
dns_observations-asks_for p r i q e unanswered at h =
    let d = Unanswered-is_described p r unanswered in
    let t = asks_for (normalize_domain q.name) in
    subst (λ m. any t (record_observations p m) ≡ true) (sym e)
      (rw d (
        any-append t (answer_observations p r) (question_observations p r)
          (any-from_questions p r (take max_records_per_packet (objects r.questions)) i q at h)))
