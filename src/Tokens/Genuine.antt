-- ===== src/Tokens/Genuine.antt =====
-- No token is accepted that `_jwt_sign` has not signed (sniff4hound/auth.py, decode_jwt).
use mathlib.Core.Path.{ap₂}
use mathlib.Core.List.{append_assoc}
use sniff4hound.Prelude.Dict.{lookup}
use sniff4hound.Prelude.Text.{
  Text, text, list_eq, list_beq_iff, is_empty, join, onto_first, onto_first-ne, join_blank,
  join-onto_first,
}
use sniff4hound.Tokens.{
  Claims, Codec, header_accepted, signing_text, payload_accepted, accept_payload, decode_pieces,
  decode_jwt, split_dots, str_of, audience_matches, refused_by, is_below, is_above, clock_skew,
  is_jwt_revoked,
}
use sniff4hound.Prelude.{
  ℕ, zero, suc, ◌+◌, ◌≡◌, refl, sym, ap, ◌∙◌, subst, ◌≢◌, inl, inr, Bool, true, false, not, ◌&&◌,
  Option, none, some, List, [], ◌∷◌, ◌++◌, arith, nat_beq, if◌then◌else◌, Bool-cases, if_elim, ◌==◌,
  number_eq, pair_eq,
}
use sniff4hound.Tokens.Accepted.{some_injective}

-- What a token that was accepted is: signed over a header that names this key and its algorithm, with the
-- issuer and the audience of this program.
pub record Genuine (k : Codec) (now : ℕ) (revoked : List Text) (token : Text) (payload : Claims)
    : Type 0 where
  pub header_b64 : Text
  pub payload_b64 : Text
  pub header : Claims
  pub is_signed :
      token
      ≡ signing_text header_b64 payload_b64 ++ (b'.' ∷ k.sign (signing_text header_b64 payload_b64))
  pub header_read : k.read header_b64 ≡ some header
  pub payload_read : k.read payload_b64 ≡ some payload
  pub algorithm : str_of (lookup (text "alg") header) ≡ text "HS256"
  pub key : str_of (lookup (text "kid") header) ≡ k.key_id
  pub issuer : str_of (lookup (text "iss") payload) ≡ text "sniff4hound"
  pub audience : audience_matches (lookup (text "aud") payload) ≡ true
  pub unexpired : refused_by (λ n. is_below n now) (lookup (text "exp") payload) ≡ false
  pub begun : refused_by (λ n. is_above n (now + clock_skew)) (lookup (text "nbf") payload) ≡ false
  pub unrevoked : is_jwt_revoked (str_of (lookup (text "jti") payload)) revoked ≡ false

split_dots-ne : (n : ℕ) (s : Text) → split_dots n s ≢ []
unfolding split_dots
split_dots-ne zero s = λ e. cc e
split_dots-ne (suc n) [] = λ e. cc e
split_dots-ne (suc n) (c ∷ s) =
    if_elim {x = [] ∷ split_dots n s} {y = onto_first c (split_dots (suc n) s)}
      (λ pieces. pieces ≢ []) (nat_beq c 46) (λ dot e. cc e)
      (λ other. onto_first-ne c (split_dots (suc n) s))

-- The pieces, joined, are the token.
join-split_dots : (n : ℕ) (s : Text) → join 46 (split_dots n s) ≡ s
unfolding split_dots
join-split_dots zero s = unfold join in refl
join-split_dots (suc n) [] = unfold join in refl
join-split_dots (suc n) (c ∷ s) = elim (Bool-cases (nat_beq c 46)) [
  | inl dot ↦ rw dot (
      join_blank 46 (split_dots n s) (split_dots-ne n s)
      ∙ ap₂ (◌∷◌) (let e : 46 ≡ c = ground arith in e) (join-split_dots n s))
  | inr other ↦ rw other (
      join-onto_first 46 c (split_dots (suc n) s) (split_dots-ne (suc n) s)
      ∙ ap (c ∷◌) (join-split_dots (suc n) s))
]

and_two : (a b : Bool) → (a && b) ≡ true → (a ≡ true) × (b ≡ true)
and_two a b h = (ground arith, ground arith)

and_five :
    (a b c d e : Bool)
    → (a && b && not c && not d && not e) ≡ true
    → (a ≡ true) × ((b ≡ true) × ((c ≡ false) × ((d ≡ false) × (e ≡ false))))
and_five a b c d e h = (ground arith, (ground arith, (ground arith, (ground arith, ground arith))))

and_key : (a empty same : Bool) → (a && (not empty && same)) ≡ true → (a ≡ true) × (same ≡ true)
and_key a empty same h = (ground arith, ground arith)

-- A test that a result was under has passed.
if_some :
    (b : Bool) (o : Option Claims) (payload : Claims)
    → (if b then o else none) ≡ some payload
    → (b ≡ true) × (o ≡ some payload)
if_some true o payload h = (refl, h)
if_some false o payload h = absurd (cc h)

same_text : (a b : Text) → (a == b) ≡ true → a ≡ b
same_text a b h = (list_beq_iff a b).0 h

payload_facts :
    (now : ℕ) (revoked : List Text) (o : Option Claims) (payload : Claims)
    → accept_payload now revoked o ≡ some payload
    → (o ≡ some payload) × (payload_accepted now revoked payload ≡ true)
payload_facts now revoked none payload h = absurd (cc h)
payload_facts now revoked (some read) payload h =
    let parts = if_some (payload_accepted now revoked read) (some read) payload h in
    (parts.1, subst (λ p. payload_accepted now revoked p ≡ true) (some_injective parts.1) parts.0)

-- The header that was read names the algorithm and the key.
header_facts :
    (k : Codec) (o : Option Claims)
    → header_accepted k o ≡ true
    → (header : Claims) × ((o ≡ some header)
        × ((str_of (lookup (text "alg") header) ≡ text "HS256")
            × (str_of (lookup (text "kid") header) ≡ k.key_id)))
unfolding header_accepted
header_facts k none h = absurd (cc h)
header_facts k (some header) h =
    let alg = str_of (lookup (text "alg") header) in
    let key = str_of (lookup (text "kid") header) in
    let parts = and_key (alg == text "HS256") (is_empty key) (key == k.key_id) h in
    (header, (refl, (same_text alg (text "HS256") parts.0, same_text key k.key_id parts.1)))

three_pieces :
    (k : Codec) (now : ℕ) (revoked : List Text) (token : Text) (payload : Claims)
    (pieces : List Text)
    → join 46 pieces ≡ token
    → decode_pieces k now revoked pieces ≡ some payload
    → Genuine k now revoked token payload
unfolding join payload_accepted
three_pieces k now revoked token payload [] e h = absurd (cc h)
three_pieces k now revoked token payload (a ∷ []) e h = absurd (cc h)
three_pieces k now revoked token payload (a ∷ b ∷ []) e h = absurd (cc h)
three_pieces k now revoked token payload (a ∷ b ∷ c ∷ d ∷ rest) e h = absurd (cc h)
three_pieces k now revoked token payload (a ∷ b ∷ c ∷ []) e h =
    let signature = k.sign (signing_text a b) in
    let gate =
      if_some (header_accepted k (k.read a) && c == signature)
        (accept_payload now revoked (k.read b)) payload h in
    let both = and_two (header_accepted k (k.read a)) (c == signature) gate.0 in
    let head = header_facts k (k.read a) both.0 in
    let body = payload_facts now revoked (k.read b) payload gate.1 in
    let facts =
      and_five (str_of (lookup (text "iss") payload) == text "sniff4hound")
        (audience_matches (lookup (text "aud") payload))
        (refused_by (λ n. is_below n now) (lookup (text "exp") payload))
        (refused_by (λ n. is_above n (now + clock_skew)) (lookup (text "nbf") payload))
        (is_jwt_revoked (str_of (lookup (text "jti") payload)) revoked) body.1 in
    record {
      header_b64 = a;
      payload_b64 = b;
      header = head.0;
      is_signed =
          sym e
          ∙ sym (append_assoc a (b'.' ∷ b) (b'.' ∷ c))
          ∙ ap (λ s. signing_text a b ++ (b'.' ∷ s)) (same_text c signature both.1);
      header_read = head.1.0;
      payload_read = body.0;
      algorithm = head.1.1.0;
      key = head.1.1.1;
      issuer = same_text (str_of (lookup (text "iss") payload)) (text "sniff4hound") facts.0;
      audience = facts.1.0;
      unexpired = facts.1.1.0;
      begun = facts.1.1.1.0;
      unrevoked = facts.1.1.1.1;
    }

-- Whatever text is presented as a token: when it is accepted, it is signed with the key of this
-- installation, over a header that names the key and the algorithm, and its payload names this issuer and
-- this audience, has not expired, has begun up to a minute from now, and is not revoked.
pub decode_jwt-Genuine :
    (k : Codec) (now : ℕ) (revoked : List Text) (token : Text) (payload : Claims)
    → decode_jwt k now revoked (some token) ≡ some payload
    → Genuine k now revoked token payload
unfolding decode_jwt
decode_jwt-Genuine k now revoked token payload h =
    three_pieces k now revoked token payload (split_dots 2 token) (join-split_dots 2 token)
      (elim (Bool-cases (is_empty token)) [
        | inl blank ↦ absurd (cc (rw blank at h))
        | inr held ↦ rw held at h
      ])
