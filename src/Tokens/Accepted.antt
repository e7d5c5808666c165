-- ===== src/Tokens/Accepted.antt =====
-- What decode_jwt accepts (sniff4hound/auth.py): what generate_token made, for as long as it lives, and
-- nothing that `_jwt_sign` has not signed.
use mathlib.Core.Path.{ap₂}
use mathlib.Core.List.{append_assoc}
use sniff4hound.Prelude.Dict.{lookup, insert, lookup-insert}
use sniff4hound.Prelude.Text.{Text, text, list_beq_iff, list_eq, is_empty, onto_first}
use sniff4hound.Settings.{int}
use sniff4hound.Tokens.{
  Claim, Claims, words, setdefault, update, Codec, Readable, default_header, default_claims,
  encode_jwt, header_accepted, signing_text, payload_accepted, accept_payload, decode_pieces,
  decode_jwt, split_dots, audience_matches, clock_skew, is_jwt_revoked, generate_token,
  token_claims, token_ttl,
}
use sniff4hound.Prelude.{
  ℕ, suc, All, inl, inr, Bool-cases, min, max, ◌==◌, ◌+◌, ◌≡◌, refl, sym, ap, ◌∙◌, subst, ◌≢◌, true,
  false, not, ◌&&◌, none, some, List, [], ◌∷◌, ◌++◌, arith, ltb, leb, nat_beq, if◌then◌else◌,
  same_refl, number_eq, pair_eq, elem,
}

pub some_injective : {a b : Claims} → some a ≡ some b → a ≡ b
some_injective h = cc

-- Up to the first dot.
split_plain :
    (n : ℕ) (a s : Text)
    → elem 46 a ≡ false
    → split_dots (suc n) (a ++ (b'.' ∷ s)) ≡ a ∷ split_dots n s
unfolding split_dots
split_plain n [] s plain = refl
split_plain n (c ∷ a) s plain =
    let here : nat_beq c 46 ≡ false = ground arith in
    let rest = split_plain n a s (ground arith) in rw here (ap (onto_first c) rest)

signing_pieces :
    (header payload signature : Text)
    → elem 46 header ≡ false
    → elem 46 payload ≡ false
    → split_dots 2 (signing_text header payload ++ (b'.' ∷ signature))
      ≡ header ∷ payload ∷ signature ∷ []
signing_pieces header payload signature plain_header plain_payload =
    ap (split_dots 2) (append_assoc header (b'.' ∷ payload) (b'.' ∷ signature))
    ∙ split_plain 1 header (payload ++ (b'.' ∷ signature)) plain_header
    ∙ ap (header ∷◌) (split_plain 0 payload signature plain_payload ∙ unfold split_dots in refl)

with_dot_ne : (a s : Text) → is_empty (a ++ (b'.' ∷ s)) ≡ false
with_dot_ne [] s = refl
with_dot_ne (c ∷ a) s = refl

-- The claims that decode_jwt looks at.
abbrev pub decisive : List Text
decisive = text "iss" ∷ text "aud" ∷ text "exp" ∷ text "nbf" ∷ text "jti" ∷ []

-- Claims that are none of them.
abbrev pub Harmless : Claims → Type 0
Harmless extra = All (λ e. elem e.0 decisive ≡ false) extra

lookup-update :
    (key : Text) (claims extra : Claims)
    → elem key decisive ≡ true
    → Harmless extra
    → lookup key (update claims extra) ≡ lookup key claims
lookup-update key claims [] d h = refl
lookup-update key claims ((other, value) ∷ extra) d h =
    lookup-update key (insert other value claims) extra d h.1
    ∙ lookup-insert other key value claims
    ∙ elim (Bool-cases (other == key)) [
      | inl same ↦
          let e : other ≡ key = (list_beq_iff other key).0 same in
          absurd (cc (sym h.0 ∙ ap (λ name. elem name decisive) e ∙ d))
      | inr differs ↦ rw differs refl
    ]

-- Two payloads that agree on the decisive claims.
abbrev Agree : Claims → Claims → Type 0
Agree p q = (key : Text) → elem key decisive ≡ true → lookup key p ≡ lookup key q

payload_accepted-Agree :
    (now : ℕ) (revoked : List Text) (p q : Claims)
    → Agree p q
    → payload_accepted now revoked p ≡ payload_accepted now revoked q
unfolding payload_accepted
payload_accepted-Agree now revoked p q a =
    rw
      (
        a (text "iss") refl,
        a (text "aud") refl,
        a (text "exp") refl,
        a (text "nbf") refl,
        a (text "jti") refl,
      )
      refl

setdefault-known :
    (key : Text) (value known : Claim) (claims : Claims)
    → lookup key claims ≡ some known
    → setdefault key value claims ≡ claims
setdefault-known key value known claims h = rw h refl

-- The claims of generate_token have an issuer and an audience of their own.
own_claims :
    (user scope jti : Text) (now ttl : ℕ) (extra : Claims)
    → Harmless extra
    → let claims = update (token_claims user scope jti now ttl) extra in
      default_claims claims ≡ claims
unfolding token_claims lookup
own_claims user scope jti now ttl extra h =
    let claims = update (token_claims user scope jti now ttl) extra in
    let issuer =
      setdefault-known (text "iss") (words (text "sniff4hound")) (words (text "sniff4hound")) claims
        (lookup-update (text "iss") (token_claims user scope jti now ttl) extra refl h) in
    let audience =
      setdefault-known (text "aud") (words (text "sniff4hound-api"))
        (words (text "sniff4hound-api")) claims
        (lookup-update (text "aud") (token_claims user scope jti now ttl) extra refl h) in
    ap (setdefault (text "aud") (words (text "sniff4hound-api"))) issuer ∙ audience

not-ltb : (a b : ℕ) → not (ltb a b) ≡ leb b a
not-ltb a b = ground arith

own_payload :
    (user scope jti : Text) (now ttl later : ℕ) (revoked : List Text)
    → payload_accepted later revoked (token_claims user scope jti now ttl)
      ≡ (leb later (now + ttl) && leb now (later + 60) && not (is_jwt_revoked jti revoked))
unfolding payload_accepted token_claims lookup audience_matches int
own_payload user scope jti now ttl later revoked =
    ap₂ (λ unexpired begun. unexpired && begun && not (is_jwt_revoked jti revoked))
      (not-ltb (now + ttl) later) (not-ltb (later + clock_skew) now)

module _ (k : Codec) (key_given : k.key_id ≢ []) (own : Readable k (default_header k)) where
  own_header : header_accepted k (some (default_header k)) ≡ true
  unfolding header_accepted lookup
  own_header = rw (same_refl k.key_id) (go k.key_id key_given)
    where
      go : (id : Text) → id ≢ [] → (not (is_empty id) && true) ≡ true
      go [] h = absurd (h refl)
      go (c ∷ id) h = refl

  -- Of a token that encode_jwt made, only the payload decides.
  decode_jwt-encode_jwt :
      (now : ℕ) (revoked : List Text) (payload : Claims)
      → Readable k (default_claims payload)
      → decode_jwt k now revoked (some (encode_jwt k payload))
        ≡ accept_payload now revoked (some (default_claims payload))
  unfolding decode_jwt encode_jwt
  decode_jwt-encode_jwt now revoked payload readable =
      let header = k.write (default_header k) in
      let body = k.write (default_claims payload) in
      let signature = k.sign (signing_text header body) in
      let pieces = signing_pieces header body signature own.plain readable.plain in
      rw (with_dot_ne (signing_text header body) signature) (
        ap (decode_pieces k now revoked) pieces
        ∙ rw (own.read-write, readable.read-write) (rw own_header (rw (same_refl signature) refl)))

  -- A token that generate_token made, with extra claims that are none of those that decode_jwt looks at:
  -- it is accepted, with the payload it was made from, exactly from a minute before it was made until its
  -- time is over, and only while its id is not revoked. Its time is what was asked for, at least one
  -- second, and never more than the longest time.
  pub decode_jwt-generate_token :
      (user scope jti : Text) (expires_in max_ttl now later : ℕ) (revoked : List Text)
      (extra : Claims)
      → Harmless extra
      → Readable k (update (token_claims user scope jti now (min (max 1 expires_in) max_ttl)) extra)
      → let lives = min (max 1 expires_in) max_ttl in
        let claims = update (token_claims user scope jti now lives) extra in
        decode_jwt k later revoked
          (some (generate_token k user scope expires_in max_ttl jti now extra))
        ≡ (if leb later (now + lives) && leb now (later + 60) && not (is_jwt_revoked jti revoked)
            then some claims
            else none)
  unfolding generate_token token_ttl
  decode_jwt-generate_token user scope jti expires_in max_ttl now later revoked extra harmless
        readable =
      let ttl = min (max 1 expires_in) max_ttl in
      let own = token_claims user scope jti now ttl in
      let claims = update own extra in
      let same = own_claims user scope jti now ttl extra harmless in
      decode_jwt-encode_jwt later revoked claims (subst (Readable k) (sym same) readable)
      ∙ ap (λ c. accept_payload later revoked (some c)) same
      ∙ ap (λ b. if b then some claims else none)
          (payload_accepted-Agree later revoked claims own
              (λ key d. lookup-update key own extra d harmless)
            ∙ own_payload user scope jti now ttl later revoked)
