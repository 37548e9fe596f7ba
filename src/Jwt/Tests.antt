-- ===== src/Jwt/Tests.antt =====
-- A small token, with a signature that a test library accepts.
use aegon.Base.{ℕ, ◌≡◌, refl, false, Option, none, some, [], ◌∷◌, if◌then◌else◌}
use aegon.Base.Bytes.{Bytes, bytes_eq}
use aegon.Base.Decimal.{pos}
use aegon.Jwt.{hs256, value, unexpected, token_expired, algorithm_mismatch, malformed_token}
use aegon.Jwt.Base64.{base64url_decode}
use aegon.Jwt.Verify.{Claim, text, whole, JwtResult, JwtVerifier, Libraries, verify}

abbrev claims_with : Claim → Bytes → Option Claim
claims_with exp name =
    if bytes_eq name (b'e' ∷ b'x' ∷ b'p' ∷ [])
    then some exp
    else if bytes_eq name (b'i' ∷ b's' ∷ b's' ∷ [])
    then some (text (b'm' ∷ b'e' ∷ []))
    else none

abbrev library : Bytes → Claim → Libraries ℕ
library alg exp = record {
  verify_hmac = λ a key input sig. bytes_eq sig (b'o' ∷ b'k' ∷ []);
  verify_asymmetric = λ a key input sig. false;
  load_public_key_pem = λ pem. none;
  load_private_key_pem = λ pem. none;
  read_header = λ json. some (record { alg = alg; kid = [] });
  read_json = λ json. some (claims_with exp);
}

abbrev verifier : JwtVerifier ℕ
verifier = record {
  alg = hs256;
  secret = (b's' ∷ []);
  pkey = 0;
  options = record {
    issuer = some (b'm' ∷ b'e' ∷ []);
    audience = none;
    expected_kid = none;
    leeway_seconds = 5;
    is_revoked = none;
    jwks = none;
    key_resolver = none;
  };
}

abbrev token : Bytes
token = (b'e' ∷ b'3' ∷ b'0' ∷ b'.' ∷ b'e' ∷ b'3' ∷ b'0' ∷ b'.' ∷ b'b' ∷ b'2' ∷ b's' ∷ [])

abbrev result : JwtResult
result = record {
  issuer = some (b'm' ∷ b'e' ∷ []);
  audience = none;
  subject = none;
  jti = none;
  kid = none;
  exp = some (pos 100);
  iat = none;
  nbf = none;
  raw_payload = (b'{' ∷ b'}' ∷ []);
}

expired_token :
    verify (library (b'H' ∷ b'S' ∷ b'2' ∷ b'5' ∷ b'6' ∷ []) (whole (pos 100))) verifier 105 token
    ≡ unexpected token_expired
unfolding verify bytes_eq
expired_token = refl

other_algorithm :
    verify (library (b'H' ∷ b'S' ∷ b'3' ∷ b'8' ∷ b'4' ∷ []) (whole (pos 100))) verifier 50 token
    ≡ unexpected algorithm_mismatch
unfolding verify bytes_eq
other_algorithm = refl

two_texts :
    verify
      (library (b'H' ∷ b'S' ∷ b'2' ∷ b'5' ∷ b'6' ∷ []) (whole (pos 100)))
      verifier
      50
      (b'e' ∷ b'3' ∷ b'0' ∷ b'.' ∷ b'e' ∷ b'3' ∷ b'0' ∷ [])
    ≡ unexpected malformed_token
unfolding verify bytes_eq
two_texts = refl

-- An exp that is a text is as good as none.
text_exp_accepted :
    verify
      (library (b'H' ∷ b'S' ∷ b'2' ∷ b'5' ∷ b'6' ∷ []) (text (b'1' ∷ b'0' ∷ b'0' ∷ [])))
      verifier
      1000
      token
    ≡ value (record result { exp = none })
unfolding verify bytes_eq
text_exp_accepted = refl

decoded_text :
    base64url_decode (32 ∷ b'S' ∷ b'G' ∷ b'V' ∷ b's' ∷ b'b' ∷ b'G' ∷ b'8' ∷ b'=' ∷ 10 ∷ [])
    ≡ some (b'H' ∷ b'e' ∷ b'l' ∷ b'l' ∷ b'o' ∷ [])
unfolding base64url_decode
decoded_text = refl
