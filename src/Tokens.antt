-- ===== src/Tokens.antt =====
-- sniff4hound/auth.py: the signed tokens (encode_jwt, decode_jwt, generate_token), the list of revoked
-- ones, the security code and the authentication of a request. A JSON object in base64url and the HMAC
-- of a text are functions that the definitions take.
pub mod Accepted
pub mod Genuine
pub mod Examples
use sniff4hound.Prelude.Dict.{Dict, lookup, insert}
use sniff4hound.Prelude.Text.{
  Text, text, list_eq, onto_first, is_empty, compare_digest, or_else, or_blank, strip, starts_with,
}
use sniff4hound.Prelude.Print.{decimal}
use sniff4hound.Settings.{
  Signed, Value, null, infinite, not_a_number, other, boolean, integer, float, string, Parsed,
  parsed, int,
}
use sniff4hound.Prelude.{
  ℕ, zero, suc, ◌+◌, ◌-◌, ◌*◌, ◌/◌, ◌%◌, ◌^◌, ◌≤◌, ◌<◌, min, max, ◌≡◌, refl, sym, ap, ◌∙◌, subst,
  ◌≢◌, ◌↔◌, ◌⊎◌, inl, inr, Bool, true, false, not, ◌&&◌, ◌||◌, Option, none, some, List, [], ◌∷◌,
  ◌++◌, map, arith, ltb, leb, nat_beq, if◌then◌else◌, length, get_elem?, take, drop, keep, any, All,
  Bool-cases, Option-cases, if_elim, get_or, is_none, PyEq, ◌==◌, same_refl, number_eq, pair_eq,
  List-cases, length-append, length-drop, length-take, take-append-drop, drop-nil, take-nil, elem,
  set_add, All-append, All-drop, drop-drop, drop-append_le,
}

-- A member of a header or of a payload: one value, or a list of values.
pub data Claim : Type 0 where
  single : Value → Claim
  listed : List Value → Claim

abbrev pub Claims : Type 0
Claims = Dict Text Claim

abbrev pub words : Text → Claim
words s = single (string s)

abbrev pub number : ℕ → Claim
number n = single (integer (record { is_negative = false; size = n }))

-- `write` is `_b64url_encode(json.dumps(d).encode())`, `read` undoes it, with none for what raises or is
-- no object; `sign` is `_jwt_sign`.
pub record Codec : Type 0 where
  pub key_id : Text
  pub sign : Text → Text
  pub write : Claims → Text
  pub read : Text → Option Claims

-- What is relied on for an object that is written: it is read as it was, and the alphabet of base64url has
-- no dot.
pub record Readable (k : Codec) (d : Claims) : Type 0 where
  pub read-write : k.read (k.write d) ≡ some d
  pub plain : elem 46 (k.write d) ≡ false

-- revoke_jwt_id, is_jwt_revoked and clear_revoked_jwt_ids, on the set of the revoked ids.
unfoldable pub revoke_jwt_id : Text → List Text → Bool × List Text
revoke_jwt_id jti revoked =
    let value = strip jti in
    if is_empty value then (false, revoked) else (true, set_add value revoked)

unfoldable pub is_jwt_revoked : Text → List Text → Bool
is_jwt_revoked jti revoked =
    let value = strip jti in if is_empty value then false else elem value revoked

unfoldable pub clear_revoked_jwt_ids : List Text → List Text
clear_revoked_jwt_ids revoked = []

-- str(value or ""). What is neither a text nor an integer prints as no id, no name of the issuer and no
-- algorithm, and is blank here.
abbrev pub printed : Signed → Text
printed n =
    if nat_beq n.size 0 then [] else if n.is_negative then b'-' ∷ decimal n.size else decimal n.size

abbrev pub str_of_value : Value → Text
str_of_value (string s) = s
str_of_value (integer n) = printed n
str_of_value value = []

abbrev pub str_of : Option Claim → Text
str_of (some (single value)) = str_of_value value
str_of claim = []

-- _audience_matches
abbrev pub is_audience : Value → Bool
is_audience (string s) = s == text "sniff4hound-api"
is_audience value = false

unfoldable pub audience_matches : Option Claim → Bool
audience_matches none = false
audience_matches (some (single value)) = is_audience value
audience_matches (some (listed values)) = any is_audience values

-- claims.setdefault(key, value)
abbrev pub setdefault : Text → Claim → Claims → Claims
setdefault key value claims =
    if is_none (lookup key claims) then insert key value claims else claims

-- s.split(".", n)
unfoldable pub split_dots : ℕ → Text → List Text
split_dots zero s = s ∷ []
split_dots (suc n) [] = [] ∷ []
split_dots (suc n) (c ∷ s) =
    let cut = [] ∷ split_dots n s in
    let kept = onto_first c (split_dots (suc n) s) in if nat_beq c 46 then cut else kept

-- `exp is not None and int(exp) < now`, and that of `nbf`; none is an exception, which decode_jwt
-- turns into a refusal.
abbrev pub is_below : Signed → ℕ → Bool
is_below n now = n.is_negative && ltb 0 n.size || ltb n.size now

abbrev pub is_above : Signed → ℕ → Bool
is_above n now = not (n.is_negative) && ltb now n.size

abbrev pub test_number : (Signed → Bool) → Parsed → Bool
test_number test (parsed n) = test n
test_number test raised = true

abbrev pub refused_by : (Signed → Bool) → Option Claim → Bool
refused_by test none = false
refused_by test (some (single null)) = false
refused_by test (some (single value)) = test_number test (int value)
refused_by test (some (listed values)) = true

-- JWT_CLOCK_SKEW_SECONDS
abbrev pub clock_skew : ℕ
clock_skew = 60

abbrev pub default_header : Codec → Claims
default_header k =
    (text "alg", words (text "HS256"))
    ∷ (text "typ", words (text "JWT"))
    ∷ (text "kid", words k.key_id)
    ∷ []

abbrev pub default_claims : Claims → Claims
default_claims payload =
    setdefault (text "aud") (words (text "sniff4hound-api"))
      (setdefault (text "iss") (words (text "sniff4hound")) payload)

unfoldable pub encode_jwt : Codec → Claims → Text
encode_jwt k payload =
    let signing_input = k.write (default_header k) ++ (b'.' ∷ k.write (default_claims payload)) in
    signing_input ++ (b'.' ∷ k.sign signing_input)

-- The checks of decode_jwt, in their order: of the header, of the signature, and of the payload.
unfoldable pub header_accepted : Codec → Option Claims → Bool
header_accepted k none = false
header_accepted k (some header) =
    let key_id = str_of (lookup (text "kid") header) in
    str_of (lookup (text "alg") header) == text "HS256"
    && (not (is_empty key_id) && key_id == k.key_id)

abbrev pub signing_text : Text → Text → Text
signing_text header_b64 payload_b64 = header_b64 ++ (b'.' ∷ payload_b64)

unfoldable pub payload_accepted : ℕ → List Text → Claims → Bool
payload_accepted now revoked payload =
    str_of (lookup (text "iss") payload) == text "sniff4hound"
    && audience_matches (lookup (text "aud") payload)
    && not (refused_by (λ n. is_below n now) (lookup (text "exp") payload))
    && not (refused_by (λ n. is_above n (now + clock_skew)) (lookup (text "nbf") payload))
    && not (is_jwt_revoked (str_of (lookup (text "jti") payload)) revoked)

abbrev pub accept_payload : ℕ → List Text → Option Claims → Option Claims
accept_payload now revoked none = none
accept_payload now revoked (some payload) =
    if payload_accepted now revoked payload then some payload else none

abbrev pub decode_pieces : Codec → ℕ → List Text → List Text → Option Claims
decode_pieces k now revoked (header_b64 ∷ payload_b64 ∷ signature_b64 ∷ []) =
    if header_accepted k (k.read header_b64)
      && signature_b64 == k.sign (signing_text header_b64 payload_b64)
    then accept_payload now revoked (k.read payload_b64)
    else none
decode_pieces k now revoked pieces = none

-- decode_jwt at the time `now`; none is (False, None).
unfoldable pub decode_jwt : Codec → ℕ → List Text → Option Text → Option Claims
decode_jwt k now revoked none = none
decode_jwt k now revoked (some token) =
    if is_empty token then none else decode_pieces k now revoked (split_dots 2 token)

-- generate_token; `jti` is what `secrets.token_hex` gives, `extra` is written over the payload.
abbrev pub update : Claims → Claims → Claims
update claims [] = claims
update claims ((key, value) ∷ extra) = update (insert key value claims) extra

unfoldable pub token_ttl : ℕ → ℕ → ℕ
token_ttl max_ttl expires_in = min (max 1 expires_in) max_ttl

unfoldable pub token_claims : Text → Text → Text → ℕ → ℕ → Claims
token_claims user scope jti now ttl =
    (text "iss", words (text "sniff4hound"))
    ∷ (text "aud", words (text "sniff4hound-api"))
    ∷ (text "user", words (or_else user (text "operator")))
    ∷ (text "scope", words (or_else scope (text "session")))
    ∷ (text "jti", words jti)
    ∷ (text "iat", number now)
    ∷ (text "nbf", number now)
    ∷ (text "exp", number (now + ttl))
    ∷ []

unfoldable pub generate_token : Codec → Text → Text → ℕ → ℕ → Text → ℕ → Claims → Text
generate_token k user scope expires_in max_ttl jti now extra =
    encode_jwt k (update (token_claims user scope jti now (token_ttl max_ttl expires_in)) extra)

-- initialize_session_token and get_session_token: the code is drawn once.
unfoldable pub initialize_session_token : Text → Option Text → Text
initialize_session_token drawn session = get_or session drawn

-- verify_token, once the code is there; none is the TypeError.
abbrev pub verify_candidate : Option Bool → Bool → Option Bool
verify_candidate none signed = none
verify_candidate (some same) signed = some (same || signed)

abbrev pub verify_text : Codec → Bool → ℕ → List Text → Text → Text → Option Bool
verify_text k require_auth now revoked code token =
    let candidate = strip token in
    let signed = not (is_none (decode_jwt k now revoked (some candidate))) in
    if is_empty token
    then some (not require_auth)
    else verify_candidate (compare_digest candidate code) signed

unfoldable pub verify_token : Codec → Bool → ℕ → List Text → Text → Option Text → Option Bool
verify_token k require_auth now revoked code token =
    verify_text k require_auth now revoked code (or_blank token)

-- extract_token_from_header
unfoldable pub extract_token_from_header : Option Text → Option Text
extract_token_from_header none = none
extract_token_from_header (some header) =
    if is_empty header
    then none
    else if starts_with (text "Bearer ") header
    then some (strip (drop 7 header))
    else some (strip header)

-- authenticate_request: who the request is from, or that it is refused, or the TypeError.
pub data Authentication : Type 0 where
  anonymous : Authentication
  by_code : Authentication
  by_token : Claims → Authentication
  refused : Authentication
  type_error : Authentication

abbrev pub authenticate_with : Option Claims → Option Bool → Authentication
authenticate_with (some payload) verified = by_token payload
authenticate_with none none = type_error
authenticate_with none (some verified) = if verified then by_code else refused

unfoldable pub authenticate_request :
    Codec → Bool → ℕ → List Text → Text → Option Text → Authentication
authenticate_request k require_auth now revoked code token =
    if is_empty (or_blank token)
    then (if require_auth then refused else anonymous)
    else authenticate_with (decode_jwt k now revoked token)
        (verify_token k require_auth now revoked code token)
