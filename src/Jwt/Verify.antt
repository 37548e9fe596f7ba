-- ===== src/Jwt/Verify.antt =====
-- src/http/jwt/JwtVerifier.h: JwtVerifier::verify. The clock's reading and the denylist at that
-- time are arguments; a leeway is a natural number, and no sum of times reaches 2 ^ 63.
use aegon.Base.{
  ℕ, suc, ◌+◌, ◌-◌, Bool, true, false, not, ◌&&◌, ◌||◌, Option, none, some, [], ◌∷◌, ltb, leb, ◌==◌,
  if◌then◌else◌, length, take, drop,
}
use aegon.Base.Bytes.{Bytes, bytes_eq}
use aegon.Base.Decimal.{ℤ, pos, negsuc, to_string_int}
use aegon.Jwt.{
  Algorithm, same_algorithm, algorithm_from_string, is_hmac, Expected, value, malformed_token,
  algorithm_mismatch, signature_mismatch, token_expired, token_not_yet_valid, issuer_mismatch,
  audience_mismatch, ◌>>=◌, ◌>>◌, require, require_some, parse_error, key_error, key_not_found,
  revoked_token,
}
use aegon.Simd.Search.{index_of}
use aegon.Jwt.Base64.{base64url_decode}

-- A claim as the JSON reader gives it; `real` is a double, cut to a whole number.
pub data Claim : Type 0 where
  text : Bytes → Claim
  whole real : ℤ → Claim
  other_json : Claim

abbrev pub get_str : Option Claim → Option Bytes
get_str (some (text s)) = some s
get_str _ = none

abbrev pub get_num : Option Claim → Option ℤ
get_num (some (whole n)) = some n
get_num (some (real n)) = some n
get_num _ = none

abbrev pub subject_of : Option Claim → Option Bytes
subject_of (some (text s)) = some s
subject_of (some (whole n)) = some (to_string_int n)
subject_of (some (real n)) = some (to_string_int n)
subject_of _ = none

-- The header that is read, with "" where a field is missing.
pub record JwtHeader : Type 0 where
  pub alg : Bytes
  pub kid : Bytes

pub record JwtResult : Type 0 where
  pub issuer : Option Bytes
  pub audience : Option Bytes
  pub subject : Option Bytes
  pub jti : Option Bytes
  pub kid : Option Bytes
  pub exp : Option ℤ
  pub iat : Option ℤ
  pub nbf : Option ℤ
  pub raw_payload : Bytes

-- The keys of a Jwks: get_key, their number, and the first as a key.
pub record Jwks (Key : Type 0) : Type 0 where
  pub get_key : Bytes → Option Key
  pub size : ℕ
  pub front : Option Key

pub record VerifierOptions (Key : Type 0) : Type 0 where
  pub issuer : Option Bytes
  pub audience : Option Bytes
  pub expected_kid : Option Bytes
  pub leeway_seconds : ℕ
  pub is_revoked : Option (Bytes → Bool)
  pub jwks : Option (Jwks Key)
  pub key_resolver : Option (Bytes → Option Bytes)

pub record JwtVerifier (Key : Type 0) : Type 0 where
  pub alg : Algorithm
  pub secret : Bytes
  pub pkey : Key
  pub options : VerifierOptions Key

-- OpenSSL and glaze; `read_json` gives what each name of the payload stands for.
pub record Libraries (Key : Type 0) : Type 0 where
  pub verify_hmac : Algorithm → Bytes → Bytes → Bytes → Bool
  pub verify_asymmetric : Algorithm → Key → Bytes → Bytes → Bool
  pub load_public_key_pem : Bytes → Option Key
  pub load_private_key_pem : Bytes → Option Key
  pub read_header : Bytes → Option JwtHeader
  pub read_json : Bytes → Option (Bytes → Option Claim)

pub record Parts : Type 0 where
  pub header_b64 : Bytes
  pub payload_b64 : Bytes
  pub sig_b64 : Bytes
  pub signing_input : Bytes

-- The second dot is looked for behind the first.
unfoldable pub split_token : Bytes → Expected Parts
unfolding index_of
split_token token = require_some (index_of (b'.' ∷ []) 0 token) malformed_token >>= λ first_dot.
    require (not (first_dot == 0)) malformed_token
    >> (require_some (index_of (b'.' ∷ []) 0 (drop (first_dot + 1) token)) malformed_token >>= λ k.
        let second_dot : ℕ = first_dot + 1 + k in
        require (not (leb second_dot (first_dot + 1) || leb (length token) (second_dot + 1)))
          malformed_token
        >> value record {
          header_b64 = take first_dot token;
          payload_b64 = take (second_dot - first_dot - 1) (drop (first_dot + 1) token);
          sig_b64 = drop (second_dot + 1) token;
          signing_input = take second_dot token;
        })

abbrev pub is_claimed : Option Bytes → Option Bytes → Bool
is_claimed none claim = true
is_claimed (some a) none = false
is_claimed (some a) (some b) = bytes_eq b a

abbrev pub is_empty_text : Bytes → Bool
is_empty_text t = length t == 0

-- h.kid.empty() || h.kid != *expected_kid
abbrev pub has_kid : Option Bytes → Bytes → Bool
has_kid none kid = true
has_kid (some a) kid = not (is_empty_text kid) && bytes_eq kid a

abbrev pub is_alg : Algorithm → Option Algorithm → Bool
is_alg alg none = false
is_alg alg (some a) = same_algorithm a alg

-- now_sec + leeway < nbf
abbrev pub not_before : ℕ → ℕ → Option ℤ → Bool
not_before now leeway none = true
not_before now leeway (some (pos n)) = leb n (now + leeway)
not_before now leeway (some (negsuc n)) = true

-- now_sec - leeway >= exp
abbrev pub not_expired : ℕ → ℕ → Option ℤ → Bool
not_expired now leeway none = true
not_expired now leeway (some (pos n)) = ltb now (n + leeway)
not_expired now leeway (some (negsuc n)) = ltb (now + suc n) leeway

abbrev pub not_revoked : Option (Bytes → Bool) → Option Bytes → Bool
not_revoked none jti = true
not_revoked (some is_revoked) none = true
not_revoked (some is_revoked) (some jti) = not (is_revoked jti)

module _ {Key : Type 0} (lib : Libraries Key) (v : JwtVerifier Key) where
  unfoldable pub check_header : Bytes → Expected JwtHeader
  unfolding base64url_decode algorithm_from_string same_algorithm bytes_eq
  check_header header_b64 =
      require_some (base64url_decode header_b64) malformed_token >>= λ header_json.
      require_some (lib.read_header header_json) malformed_token >>= λ h.
      require (is_alg v.alg (algorithm_from_string h.alg)) algorithm_mismatch
      >> (require (has_kid v.options.expected_kid h.kid) key_not_found >> value h)

  abbrev pub jwks_key : Jwks Key → Bytes → Option Key
  jwks_key keys kid =
      if not (is_empty_text kid)
      then keys.get_key kid
      else if keys.size == 1
      then keys.front
      else none

  abbrev pub or_private : Bytes → Option Key → Option Key
  or_private pem (some k) = some k
  or_private pem none = lib.load_private_key_pem pem

  -- By a resolved key, which is a secret or a PEM text.
  abbrev pub verify_resolved : Bytes → Bytes → Bytes → Expected Bool
  verify_resolved key_str input raw_sig =
      if is_hmac v.alg
      then value (lib.verify_hmac v.alg key_str input raw_sig)
      else (require_some (or_private key_str (lib.load_public_key_pem key_str)) key_error >>= λ k.
          value (lib.verify_asymmetric v.alg k input raw_sig))

  abbrev pub verify_own : Bytes → Bytes → Bool
  verify_own input raw_sig =
      if is_hmac v.alg
      then lib.verify_hmac v.alg v.secret input raw_sig
      else lib.verify_asymmetric v.alg v.pkey input raw_sig

  abbrev pub verify_by :
      Option (Jwks Key) → Option (Bytes → Option Bytes) → Bytes → Bytes → Bytes → Expected Bool
  verify_by (some keys) resolver kid input raw_sig =
      require_some (jwks_key keys kid) key_not_found >>= λ k.
      value (lib.verify_asymmetric v.alg k input raw_sig)
  verify_by none (some resolve) kid input raw_sig =
      require_some (resolve kid) key_not_found >>= λ key_str. verify_resolved key_str input raw_sig
  verify_by none none kid input raw_sig = value (verify_own input raw_sig)

  -- sig_valid
  unfoldable pub check_signature : JwtHeader → Parts → Expected (Unit {0})
  unfolding base64url_decode
  check_signature h p = require_some (base64url_decode p.sig_b64) malformed_token >>= λ raw_sig.
      verify_by v.options.jwks v.options.key_resolver h.kid p.signing_input raw_sig >>= λ sig_valid.
      require sig_valid signature_mismatch

  abbrev pub result_of : Bytes → Bytes → (Bytes → Option Claim) → JwtResult
  result_of kid payload doc = record {
    issuer = get_str (doc (b'i' ∷ b's' ∷ b's' ∷ []));
    audience = get_str (doc (b'a' ∷ b'u' ∷ b'd' ∷ []));
    subject = subject_of (doc (b's' ∷ b'u' ∷ b'b' ∷ []));
    jti = get_str (doc (b'j' ∷ b't' ∷ b'i' ∷ []));
    kid = if is_empty_text kid then none else some kid;
    exp = get_num (doc (b'e' ∷ b'x' ∷ b'p' ∷ []));
    iat = get_num (doc (b'i' ∷ b'a' ∷ b't' ∷ []));
    nbf = get_num (doc (b'n' ∷ b'b' ∷ b'f' ∷ []));
    raw_payload = payload;
  }

  unfoldable pub read_claims : JwtHeader → Bytes → Expected JwtResult
  unfolding base64url_decode
  read_claims h payload_b64 =
      require_some (base64url_decode payload_b64) malformed_token >>= λ payload_json.
      require_some (lib.read_json payload_json) parse_error >>= λ doc.
      value (result_of h.kid payload_json doc)

  unfoldable pub check_rules : ℕ → JwtResult → Expected JwtResult
  unfolding bytes_eq
  check_rules now r =
      require (not_before now v.options.leeway_seconds r.nbf) token_not_yet_valid
      >> (require (not_expired now v.options.leeway_seconds r.exp) token_expired
          >> (require (is_claimed v.options.issuer r.issuer) issuer_mismatch
              >> (require (is_claimed v.options.audience r.audience) audience_mismatch
                  >> (require (not_revoked v.options.is_revoked r.jti) revoked_token >> value r))))

  -- verify<void>; `now` is in seconds.
  unfoldable pub verify : ℕ → Bytes → Expected JwtResult
  unfolding split_token check_header check_signature read_claims check_rules
  verify now token = split_token token >>= λ p. check_header p.header_b64 >>= λ h.
      check_signature h p >>= λ valid. read_claims h p.payload_b64 >>= λ r. check_rules now r
