-- ===== src/Jwt.antt =====
-- src/http/jwt/JwtAlgorithm.h and JwtVerifier.h: the algorithms, and the verification of a token.
-- OpenSSL, with verify_hmac, verify_asymmetric and the loading of keys around it, and the JSON
-- reader of glaze are parameters.
pub mod Base64
pub mod Verify
pub mod Split
pub mod Names
pub mod Rules
pub mod Accepted
mod Tests
use aegon.Base.{
  ◌≡◌, refl, ℕ, Bool, true, false, not, ◌||◌, Option, none, some, [], ◌∷◌, if◌then◌else◌, ◌==◌,
}
use aegon.Base.Bytes.{Bytes, bytes_eq}

pub data Algorithm : Type 0 where
  hs256 hs384 hs512 rs256 rs384 rs512 ps256 ps384 ps512 es256 es384 es512 : Algorithm

abbrev pub index : Algorithm → ℕ
index hs256 = 0
index hs384 = 1
index hs512 = 2
index rs256 = 3
index rs384 = 4
index rs512 = 5
index ps256 = 6
index ps384 = 7
index ps512 = 8
index es256 = 9
index es384 = 10
index es512 = 11

unfoldable pub algorithm_to_string : Algorithm → Bytes
algorithm_to_string hs256 = (b'H' ∷ b'S' ∷ b'2' ∷ b'5' ∷ b'6' ∷ [])
algorithm_to_string hs384 = (b'H' ∷ b'S' ∷ b'3' ∷ b'8' ∷ b'4' ∷ [])
algorithm_to_string hs512 = (b'H' ∷ b'S' ∷ b'5' ∷ b'1' ∷ b'2' ∷ [])
algorithm_to_string rs256 = (b'R' ∷ b'S' ∷ b'2' ∷ b'5' ∷ b'6' ∷ [])
algorithm_to_string rs384 = (b'R' ∷ b'S' ∷ b'3' ∷ b'8' ∷ b'4' ∷ [])
algorithm_to_string rs512 = (b'R' ∷ b'S' ∷ b'5' ∷ b'1' ∷ b'2' ∷ [])
algorithm_to_string ps256 = (b'P' ∷ b'S' ∷ b'2' ∷ b'5' ∷ b'6' ∷ [])
algorithm_to_string ps384 = (b'P' ∷ b'S' ∷ b'3' ∷ b'8' ∷ b'4' ∷ [])
algorithm_to_string ps512 = (b'P' ∷ b'S' ∷ b'5' ∷ b'1' ∷ b'2' ∷ [])
algorithm_to_string es256 = (b'E' ∷ b'S' ∷ b'2' ∷ b'5' ∷ b'6' ∷ [])
algorithm_to_string es384 = (b'E' ∷ b'S' ∷ b'3' ∷ b'8' ∷ b'4' ∷ [])
algorithm_to_string es512 = (b'E' ∷ b'S' ∷ b'5' ∷ b'1' ∷ b'2' ∷ [])

unfoldable pub same_algorithm : Algorithm → Algorithm → Bool
same_algorithm a b = index a == index b

unfoldable pub algorithm_from_string : Bytes → Option Algorithm
unfolding bytes_eq
algorithm_from_string str =
    if bytes_eq str (b'H' ∷ b'S' ∷ b'2' ∷ b'5' ∷ b'6' ∷ [])
    then some hs256
    else if bytes_eq str (b'H' ∷ b'S' ∷ b'3' ∷ b'8' ∷ b'4' ∷ [])
    then some hs384
    else if bytes_eq str (b'H' ∷ b'S' ∷ b'5' ∷ b'1' ∷ b'2' ∷ [])
    then some hs512
    else if bytes_eq str (b'R' ∷ b'S' ∷ b'2' ∷ b'5' ∷ b'6' ∷ [])
    then some rs256
    else if bytes_eq str (b'R' ∷ b'S' ∷ b'3' ∷ b'8' ∷ b'4' ∷ [])
    then some rs384
    else if bytes_eq str (b'R' ∷ b'S' ∷ b'5' ∷ b'1' ∷ b'2' ∷ [])
    then some rs512
    else if bytes_eq str (b'P' ∷ b'S' ∷ b'2' ∷ b'5' ∷ b'6' ∷ [])
    then some ps256
    else if bytes_eq str (b'P' ∷ b'S' ∷ b'3' ∷ b'8' ∷ b'4' ∷ [])
    then some ps384
    else if bytes_eq str (b'P' ∷ b'S' ∷ b'5' ∷ b'1' ∷ b'2' ∷ [])
    then some ps512
    else if bytes_eq str (b'E' ∷ b'S' ∷ b'2' ∷ b'5' ∷ b'6' ∷ [])
    then some es256
    else if bytes_eq str (b'E' ∷ b'S' ∷ b'3' ∷ b'8' ∷ b'4' ∷ [])
    then some es384
    else if bytes_eq str (b'E' ∷ b'S' ∷ b'5' ∷ b'1' ∷ b'2' ∷ [])
    then some es512
    else none

abbrev pub is_hmac : Algorithm → Bool
is_hmac hs256 = true
is_hmac hs384 = true
is_hmac hs512 = true
is_hmac _ = false

pub data JwtError : Type 0 where
  malformed_token algorithm_mismatch signature_mismatch token_expired token_not_yet_valid : JwtError
  issuer_mismatch audience_mismatch parse_error key_error key_not_found revoked_token : JwtError

-- std::expected
pub data Expected (A : Type 0) : Type 0 where
  value : A → Expected A
  unexpected : JwtError → Expected A

infixl 5 ◌>>=◌ ◌>>◌
abbrev pub ◌>>=◌ : {A B : Type 0} → Expected A → (A → Expected B) → Expected B
value a >>= f = f a
unexpected e >>= f = unexpected e

abbrev pub ◌>>◌ : {B : Type 0} → Expected (Unit {0}) → Expected B → Expected B
m >> k = m >>= λ _. k

-- if (!test) return std::unexpected(e);
abbrev pub require : Bool → JwtError → Expected (Unit {0})
require true e = value tt
require false e = unexpected e

abbrev pub require_some : {A : Type 0} → Option A → JwtError → Expected A
require_some (some a) e = value a
require_some none e = unexpected e

-- A chain that ends with a value has passed each of its steps.
module _ {A B : Type 0} where
  pub bind-value :
      (m : Expected A) (f : A → Expected B) (b : B)
      → (m >>= f) ≡ value b
      → (a : A) × (m ≡ value a) × (f a ≡ value b)
  bind-value (value a) f b e = (a, refl, e)
  bind-value (unexpected x) f b e = cc

  pub require_some-value :
      (o : Option A) (x : JwtError) (f : A → Expected B) (b : B)
      → (require_some o x >>= f) ≡ value b
      → (a : A) × (o ≡ some a) × (f a ≡ value b)
  require_some-value (some a) x f b e = (a, refl, e)
  require_some-value none x f b e = cc

pub require-value :
    {B : Type 0} (test : Bool) (x : JwtError) (k : Expected B) (b : B)
    → (require test x >> k) ≡ value b
    → (test ≡ true) × (k ≡ value b)
require-value true x k b e = (refl, e)
require-value false x k b e = cc

pub value-injective : {A : Type 0} (a b : A) → value a ≡ value b → a ≡ b
value-injective a b e = cc
