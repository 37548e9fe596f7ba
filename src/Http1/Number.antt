-- ===== src/Http1/Number.antt =====
-- src/http/v1/Http1Parser.h: the length of a body and the size of a chunk, from their digits.
use native.Mathlib.Nat.{pow-suc, pow-le-pow_right}
use aegon.Base.{
  sym, ◌∙◌, ◌==◌, ℕ, suc, ◌+◌, ◌-◌, ◌*◌, ◌%◌, ◌^◌, ◌≤◌, ◌<◌, ◌≡◌, refl, Bool, not, ◌&&◌, Option,
  none, some, [], ◌∷◌, leb, arith, if◌then◌else◌, length, Option-cases, inl, inr,
}
use aegon.Base.Bits.{or_shift}
use aegon.Base.Bytes.{Bytes}
use aegon.Base.Decimal.{is_digit}
use aegon.Simd.Check.{all_bytes}
use aegon.Http1.Fields.{is_some}
use aegon.Http1.Text.{
  is_empty, hex_value, hex_digits, parse_hex_size, length_digits, parse_valid_content_length,
}

-- The number that the digits write in base 10.
unfoldable pub decimal : ℕ → Bytes → ℕ
decimal acc [] = acc
decimal acc (c ∷ cs) = decimal (acc * 10 + (c - b'0')) cs

-- The hexadecimal digits in lower case and in upper case, each at the place of its value.
abbrev lower_digits : Bytes
lower_digits =
    (b'0' ∷ b'1' ∷ b'2' ∷ b'3' ∷ b'4' ∷ b'5' ∷ b'6' ∷ b'7' ∷ b'8' ∷ b'9' ∷ b'a' ∷ b'b' ∷ b'c' ∷ b'd'
      ∷ b'e' ∷ b'f' ∷ [])

abbrev upper_digits : Bytes
upper_digits =
    (b'0' ∷ b'1' ∷ b'2' ∷ b'3' ∷ b'4' ∷ b'5' ∷ b'6' ∷ b'7' ∷ b'8' ∷ b'9' ∷ b'A' ∷ b'B' ∷ b'C' ∷ b'D'
      ∷ b'E' ∷ b'F' ∷ [])

-- The place of a character in a text, from `i` on.
unfoldable pub place : ℕ → Bytes → ℕ → Option ℕ
place i [] c = none
place i (d ∷ ds) c = let rest = place (suc i) ds c in if d == c then some i else rest

unfoldable pub digit_value : ℕ → Option ℕ
unfolding place
digit_value c = elim (place 0 lower_digits c) [ some v ↦ some v | none ↦ place 0 upper_digits c ]

unfoldable pub is_hex_digit : ℕ → Bool
unfolding digit_value
is_hex_digit c = is_some (digit_value c)

abbrev or_zero : Option ℕ → ℕ
or_zero none = 0
or_zero (some v) = v

-- The number that the digits write in base 16.
unfoldable pub hexadecimal : ℕ → Bytes → ℕ
unfolding digit_value
hexadecimal acc [] = acc
hexadecimal acc (c ∷ cs) = hexadecimal (acc * 16 + or_zero (digit_value c)) cs

hex_value-digit_value : (c : ℕ) → hex_value c ≡ digit_value c
unfolding hex_value digit_value place
hex_value-digit_value c = ground arith

-- Up to 19 digits, no step wraps.
length_digits-decimal :
    (k len : ℕ) (cs : Bytes)
    → len < 10 ^ k
    → k + length cs ≤ 19
    → length_digits len cs ≡ (if all_bytes is_digit cs then some (decimal len cs) else none)
unfolding length_digits decimal is_digit all_bytes
length_digits-decimal k len [] h b = refl
length_digits-decimal k len (c ∷ cs) h b =
    let top : 10 ^ suc k ≤ 10 ^ 19 = pow-le-pow_right (omega arith) {j = 19} (omega arith) in
    let step = pow-suc 10 k in
    ground (arith, top, step, length_digits-decimal (suc k) (len * 10 + (c - b'0')) cs)

-- parse_valid_content_length accepts exactly the texts of 1 to 19 decimal digits, and returns the
-- number that they write: its test for an overflow never fires.
parse_valid_content_length-decimal :
    (value : Bytes)
    → parse_valid_content_length value ≡ (
        if not (is_empty value) && leb (length value) 19 && all_bytes is_digit value
        then some (decimal 0 value)
        else none)
unfolding parse_valid_content_length
parse_valid_content_length-decimal value = ground (arith, length_digits-decimal 0 0 value)

hex_value_lt : (c v : ℕ) → hex_value c ≡ some v → v < 16
unfolding hex_value
hex_value_lt c v h = ground arith

-- Up to 16 digits, no bit is shifted out.
hex_digits-hexadecimal :
    (k size : ℕ) (cs : Bytes)
    → size < 16 ^ k
    → k + length cs ≤ 16
    → hex_digits size cs ≡ (if all_bytes is_hex_digit cs then some (hexadecimal size cs) else none)
unfolding hex_digits hexadecimal is_hex_digit all_bytes
hex_digits-hexadecimal k size [] h b = refl
hex_digits-hexadecimal k size (c ∷ cs) h b = elim (Option-cases (hex_value c)) [
  | inl e ↦
      let d : digit_value c ≡ none = sym (hex_value-digit_value c) ∙ e in rw (e, d, hex_digits) refl
  | inr (v, e) ↦
      let top : 16 ^ suc k ≤ 16 ^ 16 = pow-le-pow_right (omega arith) {j = 16} (omega arith) in
      let step = pow-suc 16 k in
      let small = hex_value_lt c v e in
      let d : digit_value c ≡ some v = sym (hex_value-digit_value c) ∙ e in
      let whole : size * 16 % 2 ^ 64 ≡ size * 16 = omega (arith, top, step) in
      rw (e, d, hex_digits, whole, or_shift 4 size v (omega arith))
        (hex_digits-hexadecimal (suc k) (size * 16 + v) cs (omega (arith, step)) (omega arith))
]

-- parse_hex_size accepts exactly the texts of 1 to 16 hexadecimal digits of either case, and returns
-- the number that they write.
parse_hex_size-hexadecimal :
    (hex_str : Bytes)
    → parse_hex_size hex_str ≡ (
        if not (is_empty hex_str) && leb (length hex_str) 16 && all_bytes is_hex_digit hex_str
        then some (hexadecimal 0 hex_str)
        else none)
unfolding parse_hex_size
parse_hex_size-hexadecimal hex_str = ground (arith, hex_digits-hexadecimal 0 0 hex_str)

-- The two numbers that the parser reads: parse_valid_content_length accepts exactly the texts of 1 to
-- 19 decimal digits, and parse_hex_size those of 1 to 16 hexadecimal digits of either case. Each
-- returns the number that the digits write: nothing overflows.
pub parse_numbers :
    (value : Bytes)
    → (parse_valid_content_length value ≡ (
        if not (is_empty value) && leb (length value) 19 && all_bytes is_digit value
        then some (decimal 0 value)
        else none))
      × (parse_hex_size value ≡ (
          if not (is_empty value) && leb (length value) 16 && all_bytes is_hex_digit value
          then some (hexadecimal 0 value)
          else none))
parse_numbers value = (parse_valid_content_length-decimal value, parse_hex_size-hexadecimal value)
