-- ===== src/Jwt/Rules.antt =====
-- src/http/jwt/JwtVerifier.h: what the claims of a token have to meet.
use mathlib.Core.Path.{subst}
use aegon.Base.{
  Option-cases, inl, inr, ℕ, ◌+◌, ◌≡◌, ◌≤◌, ◌<◌, refl, ap, ◌∙◌, Bool, true, false, Option, none,
  some, arith,
}
use aegon.Base.Bytes.{bytes_eq, Bytes, eq_of_bytes_eq}
use aegon.Base.Decimal.{ℤ, pos}
use aegon.Jwt.Names.{eq_of_same_algorithm, algorithm_from_string_lem}
use aegon.Jwt.{
  Algorithm, algorithm_to_string, algorithm_from_string, same_algorithm, value, JwtError, require,
}
use aegon.Jwt.Base64.{base64url_decode}
use aegon.Jwt.Verify.{
  Claim, JwtHeader, JwtResult, VerifierOptions, JwtVerifier, Libraries, Parts, is_claimed, has_kid,
  is_alg, not_before, not_expired, not_revoked, verify_by, result_of,
}

-- The header is that of the first text; it names the verifier's algorithm and the key that is
-- expected. The signature of the first two texts was found right with the key that the options lead
-- to, and the claims are those of the second text.
pub record IsSigned {Key : Type 0} (lib : Libraries Key) (v : JwtVerifier Key) (p : Parts)
    (r : JwtResult) : Type 0 where
  pub header_json : Bytes
  pub header : JwtHeader
  pub header_decoded : base64url_decode p.header_b64 ≡ some header_json
  pub header_read : lib.read_header header_json ≡ some header
  pub alg : header.alg ≡ algorithm_to_string v.alg
  pub kid : (a : Bytes) → v.options.expected_kid ≡ some a → header.kid ≡ a
  pub signature : Bytes
  pub decoded : base64url_decode p.sig_b64 ≡ some signature
  pub verified :
      verify_by lib v v.options.jwks v.options.key_resolver header.kid p.signing_input signature
      ≡ value true
  pub payload : base64url_decode p.payload_b64 ≡ some r.raw_payload
  pub doc : Bytes → Option Claim
  pub parsed : lib.read_json r.raw_payload ≡ some doc
  pub claims : r ≡ result_of lib v header.kid r.raw_payload doc

-- The token is in time, from the issuer and for the audience that are asked for, and not revoked.
pub record IsInForce {Key : Type 0} (options : VerifierOptions Key) (now : ℕ) (r : JwtResult)
    : Type 0 where
  pub started : (n : ℕ) → r.nbf ≡ some (pos n) → n ≤ now + options.leeway_seconds
  pub running : (n : ℕ) → r.exp ≡ some (pos n) → now < n + options.leeway_seconds
  pub issuer : (a : Bytes) → options.issuer ≡ some a → r.issuer ≡ some a
  pub audience : (a : Bytes) → options.audience ≡ some a → r.audience ≡ some a
  pub kept :
      (f : Bytes → Bool) (j : Bytes) → options.is_revoked ≡ some f → r.jti ≡ some j → f j ≡ false

pub is_alg-name :
    (alg : Algorithm) (name : Bytes)
    → is_alg alg (algorithm_from_string name) ≡ true
    → name ≡ algorithm_to_string alg
is_alg-name alg name h = elim (Option-cases (algorithm_from_string name)) [
  | inl e ↦ absurd (ground (arith, h, e))
  | inr (a, e) ↦
      let t : same_algorithm a alg ≡ true = subst (λ o. is_alg alg o ≡ true) e h in
      algorithm_from_string_lem name a e ∙ ap algorithm_to_string (eq_of_same_algorithm a alg t)
]

pub has_kid-some :
    (asked : Option Bytes) (kid a : Bytes) → has_kid asked kid ≡ true → asked ≡ some a → kid ≡ a
has_kid-some none kid a h e = absurd (ground (arith, e))
has_kid-some (some b) kid a h e =
    let t : bytes_eq kid b ≡ true = ground (arith, h) in
    let same : b ≡ a = ground (arith, e) in eq_of_bytes_eq kid b t ∙ same

pub is_claimed-some :
    (asked claim : Option Bytes) (a : Bytes)
    → is_claimed asked claim ≡ true
    → asked ≡ some a
    → claim ≡ some a
is_claimed-some none claim a t e = absurd (ground (arith, e))
is_claimed-some (some b) none a t e = absurd (ground (arith, t))
is_claimed-some (some b) (some c) a t e =
    let same : b ≡ a = ground (arith, e) in ap some (eq_of_bytes_eq c b t ∙ same)

pub not_revoked-some :
    (o : Option (Bytes → Bool)) (claim : Option Bytes) (f : Bytes → Bool) (j : Bytes)
    → not_revoked o claim ≡ true
    → o ≡ some f
    → claim ≡ some j
    → f j ≡ false
not_revoked-some o claim f j t e e' =
    let given : not_revoked (some f) (some j) ≡ true =
      subst (λ x. not_revoked x (some j) ≡ true) e (subst (λ x. not_revoked o x ≡ true) e' t) in
    ground (arith, given)

pub not_before-pos :
    (now leeway n : ℕ) (o : Option ℤ)
    → not_before now leeway o ≡ true
    → o ≡ some (pos n)
    → n ≤ now + leeway
not_before-pos now leeway n o t e =
    let given : not_before now leeway (some (pos n)) ≡ true =
      subst (λ x. not_before now leeway x ≡ true) e t in
    ground (arith, given)

pub not_expired-pos :
    (now leeway n : ℕ) (o : Option ℤ)
    → not_expired now leeway o ≡ true
    → o ≡ some (pos n)
    → now < n + leeway
not_expired-pos now leeway n o t e =
    let given : not_expired now leeway (some (pos n)) ≡ true =
      subst (λ x. not_expired now leeway x ≡ true) e t in
    ground (arith, given)

pub passed_test :
    (test : Bool) (x : JwtError) (u : Unit {0}) → require test x ≡ value u → test ≡ true
passed_test true x u e = refl
passed_test false x u e = cc
