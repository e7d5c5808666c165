-- ===== src/History.antt =====
-- sniff4hound/history.py: what a decoded DNS packet adds to the history. A value of the packet is a
-- text where `str` is applied to it; an item of a message that is not an object is `none`.
pub mod Bounds
pub mod Recorder
mod Examples
use sniff4hound.Prelude.{
  ℕ, zero, suc, ◌+◌, Bool, true, false, not, ◌&&◌, ◌||◌, Option, none, some, List, [], ◌∷◌, ◌++◌,
  ltb, leb, if◌then◌else◌, length, take, ◌==◌, number_eq,
}
use sniff4hound.Prelude.Text.{
  Text, text, strip, strip_char, lower, or_else, or_blank, is_empty, list_eq,
}

abbrev pub max_domain_length : ℕ
max_domain_length = 253

abbrev pub max_answer_length : ℕ
max_answer_length = 255

abbrev pub max_records_per_packet : ℕ
max_records_per_packet = 32

-- normalize_domain
unfoldable pub normalize_domain : Option Text → Text
normalize_domain name =
    let domain = lower (strip_char b'.' (strip (or_blank name))) in
    if ltb 0 (length domain) && leb (length domain) max_domain_length then domain else []

pub data Ttl : Type 0 where
  negative : ℕ → Ttl
  seconds : ℕ → Ttl
  no_integer : Ttl

pub record Answer : Type 0 where
  pub name : Option Text
  pub record_type : Option Text
  pub data_ : Option Text
  pub ttl : Ttl

pub record Question : Type 0 where
  pub name : Option Text
  pub record_type : Option Text

-- packet["dns_records"]
pub record Records : Type 0 where
  pub is_response : Bool
  pub rcode : Option Text
  pub answers : List (Option Answer)
  pub questions : List (Option Question)

pub record DnsPacket : Type 0 where
  pub records : Option Records
  pub domain_source : Option Text
  pub transport : Option Text
  pub src_ip : Option Text
  pub dst_ip : Option Text

pub record DnsObservation : Type 0 where
  pub domain : Text
  pub record_type : Text
  pub answer : Text
  pub is_response : Bool
  pub rcode : Text
  pub ttl : Option ℕ
  pub source : Text
  pub transport : Text
  pub client : Text
  pub resolver : Text

-- [item for item in items if isinstance(item, dict)]
abbrev pub objects {ℓ} : {A : Type ℓ} → List (Option A) → List A
objects [] = []
objects (none ∷ items) = objects items
objects (some a ∷ items) = a ∷ objects items

-- str(value or default).strip().lower() or default
abbrev pub label_of : Option Text → Text → Text
label_of value default = or_else (lower (strip (or_else (or_blank value) default))) default

abbrev pub ttl_of : Ttl → Option ℕ
ttl_of (negative n) = none
ttl_of (seconds n) = some n
ttl_of no_integer = none

-- `build`
unfoldable pub build : DnsPacket → Records → Text → Text → Text → Option ℕ → DnsObservation
build p r domain record_type answer ttl =
    let src = strip (or_blank p.src_ip) in
    let dst = strip (or_blank p.dst_ip) in
    record {
      domain = domain;
      record_type = record_type;
      answer = answer;
      is_response = r.is_response;
      rcode = or_else (or_blank r.rcode) (text "NOERROR");
      ttl = ttl;
      source = label_of p.domain_source (text "dns");
      transport = label_of p.transport (text "udp");
      client = if r.is_response then dst else src;
      resolver = if r.is_response then src else dst;
    }

abbrev pub answer_data : Answer → Text
answer_data a = take max_answer_length (strip (or_blank a.data_))

abbrev pub type_of : Option Text → Text
type_of record_type = or_else (or_blank record_type) (text "?")

unfoldable pub from_answers : DnsPacket → Records → List Answer → List DnsObservation
unfolding build
from_answers p r [] = []
from_answers p r (a ∷ answers) =
    let rest = from_answers p r answers in
    let domain = normalize_domain a.name in
    if is_empty domain || is_empty (answer_data a)
    then rest
    else build p r domain (type_of a.record_type) (answer_data a) (ttl_of a.ttl) ∷ rest

unfoldable pub from_questions : DnsPacket → Records → List Question → List DnsObservation
unfolding build
from_questions p r [] = []
from_questions p r (q ∷ questions) =
    let rest = from_questions p r questions in
    let domain = normalize_domain q.name in
    if is_empty domain then rest else build p r domain (type_of q.record_type) [] none ∷ rest

abbrev pub answer_observations : DnsPacket → Records → List DnsObservation
answer_observations p r = from_answers p r (take max_records_per_packet (objects r.answers))

abbrev pub question_observations : DnsPacket → Records → List DnsObservation
question_observations p r = from_questions p r (take max_records_per_packet (objects r.questions))

-- A successful response with records is described by them.
abbrev pub is_described : Records → List DnsObservation → Bool
is_described r found =
    r.is_response
    && or_else (or_blank r.rcode) (text "NOERROR") == text "NOERROR"
    && not (is_empty found)

abbrev pub record_observations : DnsPacket → Option Records → List DnsObservation
record_observations p none = []
record_observations p (some r) =
    let found = answer_observations p r in
    if is_described r found then found else found ++ question_observations p r

-- dns_observations
unfoldable pub dns_observations : DnsPacket → List DnsObservation
unfolding normalize_domain from_answers from_questions
dns_observations p = record_observations p p.records
