-- ===== src/Jwt/Base64.antt =====
-- src/http/jwt/JwtAlgorithm.h: base64url_decode.
use Prim.Native.Nat.{bit_and, bit_or}
use aegon.Base.{
  ℕ, ◌+◌, ◌-◌, ◌*◌, ◌/◌, ◌%◌, ◌^◌, Bool, ◌&&◌, ◌||◌, Option, none, some, List, [], ◌∷◌, ◌++◌, leb,
  ◌==◌, if◌then◌else◌,
}
use aegon.Base.Bytes.{Bytes}

abbrev is_blank : ℕ → Bool
is_blank c = c == 32 || c == 13 || c == 10 || c == 9

-- in.front()
unfoldable pub trim_front : Bytes → Bytes
trim_front [] = []
trim_front (c ∷ cs) = let rest = trim_front cs in if is_blank c then rest else c ∷ cs

-- in.back(), where '=' goes as well.
unfoldable pub trim_back : Bytes → Bytes
trim_back [] = []
trim_back (c ∷ cs) = elim (trim_back cs) [
  | [] ↦ if c == b'=' || is_blank c then [] else c ∷ []
  | ◌∷◌ d ds ↦ c ∷ d ∷ ds
]

-- B64_TABLE, `none` where it is negative.
unfoldable pub b64_value : ℕ → Option ℕ
b64_value c =
    if leb b'A' c && leb c b'Z'
    then some (c - b'A')
    else if leb b'a' c && leb c b'z'
    then some (26 + (c - b'a'))
    else if leb b'0' c && leb c b'9'
    then some (52 + (c - b'0'))
    else if c == b'+' || c == b'-'
    then some 62
    else if c == b'/' || c == b'_'
    then some 63
    else none

abbrev pub b64_values : Bytes → Option (List ℕ)
b64_values [] = some []
b64_values (c ∷ cs) = elim (b64_value c) [
  | none ↦ none
  | some v ↦ elim (b64_values cs) [ none ↦ none | some vs ↦ some (v ∷ vs) ]
]

abbrev pub prepend_bytes : Bytes → Option Bytes → Option Bytes
prepend_bytes bs none = none
prepend_bytes bs (some cs) = some (bs ++ cs)

-- The bytes of a triple, from four values.
abbrev pub triple_bytes : ℕ → ℕ → ℕ → ℕ → Bytes
triple_bytes a b c d =
    let triple : ℕ = bit_or (bit_or (bit_or (a * 2 ^ 18) (b * 2 ^ 12)) (c * 2 ^ 6)) d in
    bit_and (triple / 2 ^ 16) 0xff ∷ bit_and (triple / 2 ^ 8) 0xff ∷ bit_and triple 0xff ∷ []

-- The values in fours, and what is left of them; a negative value is refused before.
unfoldable pub read_values : List ℕ → Option Bytes
read_values (a ∷ b ∷ c ∷ d ∷ vs) = prepend_bytes (triple_bytes a b c d) (read_values vs)
read_values [] = some []
read_values (a ∷ []) = none
read_values (a ∷ b ∷ []) = some (bit_or (a * 2 ^ 2) (b / 2 ^ 4) % 256 ∷ [])
read_values (a ∷ b ∷ c ∷ []) =
    some (
      bit_or (a * 2 ^ 2) (b / 2 ^ 4) % 256 ∷ bit_or (bit_and b 0x0f * 2 ^ 4) (c / 2 ^ 2) % 256 ∷ [])

unfoldable pub base64url_decode : Bytes → Option Bytes
unfolding trim_front trim_back b64_value read_values
base64url_decode text = elim (b64_values (trim_front (trim_back text))) [
  | none ↦ none
  | some vs ↦ read_values vs
]
