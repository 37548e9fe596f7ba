-- ===== src/Http1/Text.antt =====
-- The small readers that src/http/v1/Http1Parser.h calls: tokens, numbers, targets and methods.
use Prim.Native.Nat.{bit_or}
use aegon.Base.{
  ℕ, suc, ◌+◌, ◌-◌, ◌*◌, ◌%◌, ◌^◌, Bool, true, false, not, ◌&&◌, ◌||◌, Option, none, some, [], ◌∷◌,
  ltb, leb, ◌==◌, if◌then◌else◌, length,
}
use aegon.Base.Bytes.{Bytes, bytes_eq}
use aegon.Simd.Check.{all_bytes}

abbrev pub between : ℕ → ℕ → ℕ → Bool
between lo hi c = leb lo c && leb c hi

-- TCHAR_TABLE
unfoldable pub is_tchar : ℕ → Bool
is_tchar c =
    between b'a' b'z' c
    || between b'A' b'Z' c
    || between b'0' b'9' c
    || c == b'!'
    || c == b'#'
    || c == b'$'
    || c == b'%'
    || c == b'&'
    || c == 39
    || c == b'*'
    || c == b'+'
    || c == b'-'
    || c == b'.'
    || c == b'^'
    || c == b'_'
    || c == b'`'
    || c == b'|'
    || c == b'~'

abbrev pub validate_tchars : Bytes → Bool
validate_tchars sv = all_bytes is_tchar sv

abbrev pub is_blank : ℕ → Bool
is_blank c = c == 32 || c == 9

abbrev pub is_empty : Bytes → Bool
is_empty [] = true
is_empty (c ∷ cs) = false

-- The loop over `front`.
unfoldable pub trim_front : Bytes → Bytes
trim_front [] = []
trim_front (c ∷ cs) = if is_blank c then trim_front cs else c ∷ cs

-- The loop over `back`.
unfoldable pub trim_back : Bytes → Bytes
trim_back [] = []
trim_back (c ∷ cs) = let rest = trim_back cs in if is_blank c && is_empty rest then [] else c ∷ rest

abbrev pub trim : Bytes → Bytes
trim cs = trim_back (trim_front cs)

-- HEX_TABLE, where `none` stands for 0xFF.
unfoldable pub hex_value : ℕ → Option ℕ
hex_value c =
    if between b'0' b'9' c
    then some (c - b'0')
    else if between b'a' b'f' c
    then some (10 + (c - b'a'))
    else if between b'A' b'F' c
    then some (10 + (c - b'A'))
    else none

-- for (char c : hex_str)
unfoldable pub hex_digits : ℕ → Bytes → Option ℕ
unfolding hex_value
hex_digits size [] = some size
hex_digits size (c ∷ cs) = elim (hex_value c) [
  | none ↦ none
  | some val ↦ hex_digits (bit_or (size * 16 % 2 ^ 64) val) cs
]

unfoldable pub parse_hex_size : Bytes → Option ℕ
unfolding hex_digits
parse_hex_size hex_str =
    if is_empty hex_str || ltb 16 (length hex_str) then none else hex_digits 0 hex_str

-- for (char c : value)
unfoldable pub length_digits : ℕ → Bytes → Option ℕ
length_digits len [] = some len
length_digits len (c ∷ cs) =
    let next : ℕ = (len * 10 + (c - b'0')) % 2 ^ 64 in
    let rest = length_digits next cs in
    if not (between b'0' b'9' c) then none else if ltb next len then none else rest

unfoldable pub parse_valid_content_length : Bytes → Option ℕ
unfolding length_digits
parse_valid_content_length value =
    if is_empty value || ltb 19 (length value) then none else length_digits 0 value

-- The two characters after a '%' make a NUL, a CR or an LF.
abbrev pub is_poison : Bytes → Bool
is_poison (h1 ∷ h2 ∷ rest) =
    h1 == b'0' && h2 == b'0' || h1 == b'0' && (h2 == b'd' || h2 == b'D' || h2 == b'a' || h2 == b'A')
is_poison _ = false

-- for (size_t i = 0; i < target.size(); ++i)
unfoldable pub target_chars : Bytes → Bool
target_chars [] = true
target_chars (c ∷ cs) =
    let rest = target_chars cs in
    if c == b'#' then false else if c == b'%' && is_poison cs then false else rest

unfoldable pub is_valid_request_target : Bytes → Bool
unfolding target_chars
is_valid_request_target target = not (is_empty target) && target_chars target

pub data Method : Type 0 where
  get post put delete patch head options connect trace unknown : Method

unfoldable pub string_to_method : Bytes → Method
unfolding bytes_eq
string_to_method sv =
    if bytes_eq sv (b'G' ∷ b'E' ∷ b'T' ∷ [])
    then get
    else if bytes_eq sv (b'P' ∷ b'O' ∷ b'S' ∷ b'T' ∷ [])
    then post
    else if bytes_eq sv (b'P' ∷ b'U' ∷ b'T' ∷ [])
    then put
    else if bytes_eq sv (b'D' ∷ b'E' ∷ b'L' ∷ b'E' ∷ b'T' ∷ b'E' ∷ [])
    then delete
    else if bytes_eq sv (b'P' ∷ b'A' ∷ b'T' ∷ b'C' ∷ b'H' ∷ [])
    then patch
    else if bytes_eq sv (b'H' ∷ b'E' ∷ b'A' ∷ b'D' ∷ [])
    then head
    else if bytes_eq sv (b'O' ∷ b'P' ∷ b'T' ∷ b'I' ∷ b'O' ∷ b'N' ∷ b'S' ∷ [])
    then options
    else if bytes_eq sv (b'C' ∷ b'O' ∷ b'N' ∷ b'N' ∷ b'E' ∷ b'C' ∷ b'T' ∷ [])
    then connect
    else if bytes_eq sv (b'T' ∷ b'R' ∷ b'A' ∷ b'C' ∷ b'E' ∷ [])
    then trace
    else unknown

abbrev pub is_unknown : Method → Bool
is_unknown unknown = true
is_unknown _ = false

abbrev pub is_options : Method → Bool
is_options options = true
is_options _ = false

-- std::string_view::find_first_of, for a test of the character.
unfoldable pub find_where : (ℕ → Bool) → Bytes → Option ℕ
find_where test [] = none
find_where test (c ∷ cs) =
    let rest = find_where test cs in
    if test c then some 0 else elim rest [ none ↦ none | some i ↦ some (suc i) ]
