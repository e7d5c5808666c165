-- ===== src/Tokens/Examples.antt =====
-- Tokens at concrete inputs (sniff4hound/auth.py).
use sniff4hound.Prelude.Dict.{lookup, insert}
use sniff4hound.Prelude.Text.{Text, text, list_eq, strip}
use sniff4hound.Settings.{int}
use sniff4hound.Tokens.{
  Claims, update, Codec, words, number, decode_jwt, generate_token, token_claims, is_jwt_revoked,
  split_dots, header_accepted, payload_accepted, audience_matches, authenticate_request,
  verify_token, type_error, revoke_jwt_id,
}
use sniff4hound.Tokens.Accepted.{decode_jwt-generate_token}
use sniff4hound.Tokens.Genuine.{decode_jwt-Genuine, Genuine}
use sniff4hound.Prelude.{
  ◌+◌, min, max, ◌≡◌, refl, true, not, ◌&&◌, none, some, [], ◌∷◌, leb, if◌then◌else◌, is_none, ◌==◌,
  number_eq, pair_eq,
}

abbrev jti : Text
jti = text "a1"

-- A codec that knows one header and one payload, and signs by a mark in front.
abbrev header : Claims
header =
    (text "alg", words (text "HS256"))
    ∷ (text "typ", words (text "JWT"))
    ∷ (text "kid", words (text "cafe"))
    ∷ []

abbrev payload : Claims
payload =
    (text "iss", words (text "sniff4hound"))
    ∷ (text "aud", words (text "sniff4hound-api"))
    ∷ (text "user", words (text "operator"))
    ∷ (text "scope", words (text "session"))
    ∷ (text "jti", words jti)
    ∷ (text "iat", number 1000)
    ∷ (text "nbf", number 1000)
    ∷ (text "exp", number 1600)
    ∷ []

abbrev codec : Codec
codec = record {
  key_id = text "cafe";
  sign = λ s. b'!' ∷ s;
  write = λ d. if is_none (lookup (text "alg") d) then text "p" else text "h";
  read = λ s. if s == text "p" then some payload else if s == text "h" then some header else none;
}

-- A claim of the caller's own. The time asked for is longer than the longest.
abbrev extra : Claims
extra = (text "role", words (text "probe")) ∷ []

abbrev made : Claims
made = update (token_claims [] [] jti 1000 (min (max 1 900) 600)) extra

abbrev reads_made : Codec
reads_made = record {
  key_id = text "cafe";
  sign = λ s. b'!' ∷ s;
  write = λ d. if is_none (lookup (text "alg") d) then text "p" else text "h";
  read = λ s. if s == text "p" then some made else if s == text "h" then some header else none;
}

decode_jwt-generate_token_example :
    decode_jwt reads_made 1500 [] (some (generate_token reads_made [] [] 900 600 jti 1000 extra))
    ≡ (if leb 1500 (1000 + min (max 1 900) 600)
          && leb 1000 (1500 + 60)
          && not (is_jwt_revoked jti [])
        then some made
        else none)
unfolding lookup insert token_claims
decode_jwt-generate_token_example =
    decode_jwt-generate_token reads_made (λ e. cc e) (record { read-write = refl; plain = refl }) []
      [] jti 900 600 1000 1500 [] extra (refl, tt) (record { read-write = refl; plain = refl })

abbrev token : Text
token = text "h.p.!h.p"

token_accepted : decode_jwt codec 1500 [] (some token) ≡ some payload
unfolding decode_jwt split_dots header_accepted payload_accepted lookup audience_matches
    is_jwt_revoked strip int
token_accepted = refl

decode_jwt-Genuine_example : Genuine codec 1500 [] token payload
decode_jwt-Genuine_example = decode_jwt-Genuine codec 1500 [] token payload token_accepted

-- A token with a character that is not ASCII is not refused: the comparison of the digests raises.
not_ascii : authenticate_request codec true 1500 [] (text "Code1234") (some (233 ∷ [])) ≡ type_error
unfolding authenticate_request verify_token decode_jwt split_dots strip
not_ascii = refl

-- The payload of a revoked token is refused.
token_revoked : decode_jwt codec 1500 ((revoke_jwt_id jti []).1) (some token) ≡ none
unfolding decode_jwt split_dots header_accepted payload_accepted lookup audience_matches
    is_jwt_revoked revoke_jwt_id strip int
token_revoked = refl
