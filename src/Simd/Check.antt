-- ===== src/Simd/Check.antt =====
-- src/core/simd/SimdString.h: iequals and the checks of every character of a text. They share the
-- loop over whole registers; what differs is the test of a lane and that of a remaining character.
use Prim.Native.Nat.{bit_or}
use aegon.Base.{
  ℕ, zero, suc, ◌+◌, ◌-◌, ◌%◌, Bool, true, false, not, ◌&&◌, ◌||◌, Option, none, some, List, [],
  ◌∷◌, ltb, leb, ◌==◌, if◌then◌else◌, length, take, drop, map,
}
use aegon.Base.Bytes.{Bytes}
use aegon.Simd.{Target, avx512, avx2, sse42, neon, portable, gt_epi8, all_set}
use aegon.HeaderMap.{to_lower}

module _ {ℓ} {A : Type ℓ} where
  -- for (; i + w <= len; i += w): what is left, or `none` where a lane fails.
  unfoldable pub check_chunks : ℕ → ℕ → (A → Bool) → List A → Option (List A)
  check_chunks zero w lane rest = some rest
  check_chunks (suc fuel) w lane rest =
      let more = check_chunks fuel w lane (drop w rest) in
      if leb w (length rest)
      then (if all_set (map lane (take w rest)) then more else none)
      else some rest

  -- The scalar remainder.
  unfoldable pub all_bytes : (A → Bool) → List A → Bool
  all_bytes test [] = true
  all_bytes test (x ∷ xs) = test x && all_bytes test xs

  abbrev pub remainder : Bool → (A → Bool) → (A → Bool) → Option (List A) → Bool
  remainder masked lane test none = false
  remainder true lane test (some rest) = all_set (map lane rest)
  remainder false lane test (some rest) = all_bytes test rest

  -- `masked`: the rest is one more register, loaded under a mask.
  unfoldable pub check : Bool → ℕ → (A → Bool) → (A → Bool) → List A → Bool
  unfolding check_chunks all_bytes
  check masked w lane test rest =
      remainder masked lane test (check_chunks (length rest) w lane rest)

-- uc <= 0x20 || uc >= 0x7F
unfoldable pub is_uri_char : ℕ → Bool
is_uri_char c = not (leb c 0x20 || leb 0x7f c)

unfoldable pub uri_lane : ℕ → Bool
unfolding gt_epi8
uri_lane x = gt_epi8 x 0x20 && gt_epi8 0x7f x

unfoldable pub validate_uri_chars : Target → Bytes → Bool
unfolding check is_uri_char uri_lane
validate_uri_chars avx512 sv = check true 64 uri_lane is_uri_char sv
validate_uri_chars avx2 sv = check false 32 uri_lane is_uri_char sv
validate_uri_chars sse42 sv = check false 16 uri_lane is_uri_char sv
validate_uri_chars neon sv = check false 16 (λ x. ltb 0x20 x && ltb x 0x7f) is_uri_char sv
validate_uri_chars portable sv = all_bytes is_uri_char sv

-- uc == '\r' || (uc < 0x20 && uc != '\t') || uc == 0x7F
unfoldable pub is_value_char : ℕ → Bool
is_value_char c = not (c == 13 || (ltb c 0x20 && not (c == 9) || c == 0x7f))

-- A saturating subtraction of unsigned lanes, compared with zero.
unfoldable pub value_lane : ℕ → Bool
unfolding gt_epi8
value_lane x = not ((x == 13 || x == 0x7f) || (not (x == 9) && gt_epi8 (0x20 - x) 0))

abbrev pub value_lane_neon : ℕ → Bool
value_lane_neon x = not ((x == 13 || x == 0x7f) || (ltb x 0x20 && not (x == 9)))

-- A target with AVX-512 has AVX2 too, and takes its branch here.
unfoldable pub validate_header_value : Target → Bytes → Bool
unfolding check is_value_char value_lane
validate_header_value avx512 sv = check false 32 value_lane is_value_char sv
validate_header_value avx2 sv = check false 32 value_lane is_value_char sv
validate_header_value sse42 sv = check false 16 value_lane is_value_char sv
validate_header_value neon sv = check false 16 value_lane_neon is_value_char sv
validate_header_value portable sv = all_bytes is_value_char sv

-- uc == '\0' || uc == '\r' || uc == '\n', and the same test of the lanes.
abbrev pub is_h2_h3_char : ℕ → Bool
is_h2_h3_char c = not (c == 0 || (c == 13 || c == 10))

abbrev pub h2_h3_lane : ℕ → Bool
h2_h3_lane x = not ((x == 0 || x == 13) || x == 10)

unfoldable pub validate_h2_h3_header_value : Target → Bytes → Bool
unfolding check
validate_h2_h3_header_value avx512 sv = check false 32 h2_h3_lane is_h2_h3_char sv
validate_h2_h3_header_value avx2 sv = check false 32 h2_h3_lane is_h2_h3_char sv
validate_h2_h3_header_value sse42 sv = check false 16 h2_h3_lane is_h2_h3_char sv
validate_h2_h3_header_value neon sv = check false 16 h2_h3_lane is_h2_h3_char sv
validate_h2_h3_header_value portable sv = all_bytes is_h2_h3_char sv

-- Neither '%' nor '+'; the source returns true at the first that is.
abbrev pub is_plain : ℕ → Bool
is_plain c = not (c == b'%' || c == b'+')

unfoldable pub has_url_encoding_chars : Target → Bytes → Bool
unfolding check
has_url_encoding_chars avx512 sv = not (check true 64 is_plain is_plain sv)
has_url_encoding_chars avx2 sv = not (check false 32 is_plain is_plain sv)
has_url_encoding_chars sse42 sv = not (check false 16 is_plain is_plain sv)
has_url_encoding_chars neon sv = not (check false 16 is_plain is_plain sv)
has_url_encoding_chars portable sv = not (all_bytes is_plain sv)

abbrev pub pairs : Bytes → Bytes → List (ℕ × ℕ)
pairs (x ∷ xs) (y ∷ ys) = (x, y) ∷ pairs xs ys
pairs _ _ = []

-- _mm256_or_si256(v1, _mm256_and_si256(is_u1, to_lower))
unfoldable pub lower_or : ℕ → ℕ
unfolding gt_epi8
lower_or x = bit_or x (if gt_epi8 x 64 && gt_epi8 91 x then 32 else 0)

abbrev pub lower_neon : ℕ → ℕ
lower_neon x = bit_or x (if leb b'A' x && leb x b'Z' then 32 else 0)

-- _mm512_mask_add_epi8(v1, is_u1, v1, to_lower_v)
unfoldable pub lower_add : ℕ → ℕ
unfolding gt_epi8
lower_add x = if gt_epi8 x 64 && gt_epi8 91 x then (x + 32) % 256 else x

abbrev pub same_lane : (ℕ → ℕ) → ℕ × ℕ → Bool
same_lane lower (x, y) = lower x == lower y

-- Past the test of the lengths. AVX-512 takes up to 32 characters under one mask.
unfoldable pub compare_text : Target → List (ℕ × ℕ) → Bool
unfolding check to_lower lower_or lower_add
compare_text avx512 ps =
    if leb (length ps) 32
    then all_set (map (same_lane lower_add) ps)
    else check true 64 (same_lane lower_add) (same_lane to_lower) ps
compare_text avx2 ps = check false 32 (same_lane lower_or) (same_lane to_lower) ps
compare_text sse42 ps = check false 16 (same_lane lower_or) (same_lane to_lower) ps
compare_text neon ps = check false 16 (same_lane lower_neon) (same_lane to_lower) ps
compare_text portable ps = all_bytes (same_lane to_lower) ps

unfoldable pub iequals : Target → Bytes → Bytes → Bool
unfolding compare_text
iequals t a b =
    if not (length a == length b)
    then false
    else if length a == 0
    then true
    else compare_text t (pairs a b)
