-- ===== src/Simd/Lanes.antt =====
-- src/core/simd/SimdString.h: the vector checks beside their scalar loops.
use aegon.Base.{
  ℕ, zero, suc, ◌≡◌, refl, ap, Bool, true, false, not, ◌&&◌, some, List, [], ◌∷◌, arith, ltb,
  length, take, drop, map, All, All-take, All-drop,
}
use aegon.Base.Bytes.{Bytes, IsByte}
use aegon.Simd.{Target, avx512, avx2, sse42, neon, portable, all_set}
use aegon.Simd.Check.{
  check_chunks, all_bytes, remainder, check, is_uri_char, uri_lane, validate_uri_chars,
  is_value_char, value_lane, value_lane_neon, validate_header_value, is_h2_h3_char, h2_h3_lane,
  validate_h2_h3_header_value, is_plain, has_url_encoding_chars,
}

module _ {ℓ κ} {A : Type ℓ} (P : A → Type κ) (lane test : A → Bool)
    (same : (x : A) → P x → lane x ≡ test x) where
  pub all_set-map : (xs : List A) → All P xs → all_set (map lane xs) ≡ all_bytes test xs
  unfolding all_bytes
  all_set-map [] h = refl
  all_set-map (x ∷ xs) (hx, h) = rw (same x hx, all_set-map xs h) refl

  -- A register decides its characters; the rest of the list decides the others.
  all_bytes-take :
      (n : ℕ) (xs : List A)
      → all_bytes test xs ≡ (all_bytes test (take n xs) && all_bytes test (drop n xs))
  unfolding all_bytes
  all_bytes-take zero xs = refl
  all_bytes-take (suc n) [] = refl
  all_bytes-take (suc n) (x ∷ xs) = ground (arith, all_bytes-take n xs)

  remainder-all_bytes :
      (masked : Bool) (xs : List A)
      → All P xs
      → remainder masked lane test (some xs) ≡ all_bytes test xs
  remainder-all_bytes true xs h = all_set-map xs h
  remainder-all_bytes false xs h = refl

  check_chunks-all_bytes :
      (masked : Bool) (fuel w : ℕ) (xs : List A)
      → All P xs
      → remainder masked lane test (check_chunks fuel w lane xs) ≡ all_bytes test xs
  unfolding check_chunks
  check_chunks-all_bytes masked zero w xs h = remainder-all_bytes masked xs h
  check_chunks-all_bytes masked (suc fuel) w xs h = ground (
    arith,
    remainder-all_bytes masked xs h,
    all_set-map (take w xs) (All-take P w xs h),
    all_bytes-take w xs,
    check_chunks-all_bytes masked fuel w (drop w xs) (All-drop P w xs h),
  )

  pub check-all_bytes :
      (masked : Bool) (w : ℕ) (xs : List A)
      → All P xs
      → check masked w lane test xs ≡ all_bytes test xs
  unfolding check
  check-all_bytes masked w xs h = check_chunks-all_bytes masked (length xs) w xs h

uri_lane-is_uri_char : (x : ℕ) → IsByte x → uri_lane x ≡ is_uri_char x
unfolding uri_lane is_uri_char
uri_lane-is_uri_char x h = ground arith

value_lane-is_value_char : (x : ℕ) → IsByte x → value_lane x ≡ is_value_char x
unfolding value_lane is_value_char
value_lane-is_value_char x h = ground arith

value_lane_neon-is_value_char : (x : ℕ) → IsByte x → value_lane_neon x ≡ is_value_char x
unfolding is_value_char
value_lane_neon-is_value_char x h = ground arith

uri_neon-is_uri_char : (x : ℕ) → IsByte x → (ltb 0x20 x && ltb x 0x7f) ≡ is_uri_char x
unfolding is_uri_char
uri_neon-is_uri_char x h = ground arith

h2_h3_lane-is_h2_h3_char : (x : ℕ) → IsByte x → h2_h3_lane x ≡ is_h2_h3_char x
h2_h3_lane-is_h2_h3_char x h = ground arith

-- On every target, validate_uri_chars accepts a text of bytes exactly where each is printable ASCII
-- other than the space.
validate_uri_chars-all_bytes :
    (t : Target) (sv : Bytes) → All IsByte sv → validate_uri_chars t sv ≡ all_bytes is_uri_char sv
unfolding validate_uri_chars
validate_uri_chars-all_bytes avx512 sv h =
    check-all_bytes IsByte uri_lane is_uri_char uri_lane-is_uri_char true 64 sv h
validate_uri_chars-all_bytes avx2 sv h =
    check-all_bytes IsByte uri_lane is_uri_char uri_lane-is_uri_char false 32 sv h
validate_uri_chars-all_bytes sse42 sv h =
    check-all_bytes IsByte uri_lane is_uri_char uri_lane-is_uri_char false 16 sv h
validate_uri_chars-all_bytes neon sv h =
    check-all_bytes IsByte (λ x. ltb 0x20 x && ltb x 0x7f) is_uri_char uri_neon-is_uri_char false 16
      sv h
validate_uri_chars-all_bytes portable sv h = refl

validate_header_value-all_bytes :
    (t : Target) (sv : Bytes)
    → All IsByte sv
    → validate_header_value t sv ≡ all_bytes is_value_char sv
unfolding validate_header_value
validate_header_value-all_bytes avx512 sv h =
    check-all_bytes IsByte value_lane is_value_char value_lane-is_value_char false 32 sv h
validate_header_value-all_bytes avx2 sv h =
    check-all_bytes IsByte value_lane is_value_char value_lane-is_value_char false 32 sv h
validate_header_value-all_bytes sse42 sv h =
    check-all_bytes IsByte value_lane is_value_char value_lane-is_value_char false 16 sv h
validate_header_value-all_bytes neon sv h =
    check-all_bytes IsByte value_lane_neon is_value_char value_lane_neon-is_value_char false 16 sv h
validate_header_value-all_bytes portable sv h = refl

validate_h2_h3-all_bytes :
    (t : Target) (sv : Bytes)
    → All IsByte sv
    → validate_h2_h3_header_value t sv ≡ all_bytes is_h2_h3_char sv
unfolding validate_h2_h3_header_value
validate_h2_h3-all_bytes avx512 sv h =
    check-all_bytes IsByte h2_h3_lane is_h2_h3_char h2_h3_lane-is_h2_h3_char false 32 sv h
validate_h2_h3-all_bytes avx2 sv h =
    check-all_bytes IsByte h2_h3_lane is_h2_h3_char h2_h3_lane-is_h2_h3_char false 32 sv h
validate_h2_h3-all_bytes sse42 sv h =
    check-all_bytes IsByte h2_h3_lane is_h2_h3_char h2_h3_lane-is_h2_h3_char false 16 sv h
validate_h2_h3-all_bytes neon sv h =
    check-all_bytes IsByte h2_h3_lane is_h2_h3_char h2_h3_lane-is_h2_h3_char false 16 sv h
validate_h2_h3-all_bytes portable sv h = refl

has_url_encoding_chars-all_bytes :
    (t : Target) (sv : Bytes)
    → All IsByte sv
    → has_url_encoding_chars t sv ≡ not (all_bytes is_plain sv)
unfolding has_url_encoding_chars
has_url_encoding_chars-all_bytes avx512 sv h =
    ap not (check-all_bytes IsByte is_plain is_plain (λ x p. refl) true 64 sv h)
has_url_encoding_chars-all_bytes avx2 sv h =
    ap not (check-all_bytes IsByte is_plain is_plain (λ x p. refl) false 32 sv h)
has_url_encoding_chars-all_bytes sse42 sv h =
    ap not (check-all_bytes IsByte is_plain is_plain (λ x p. refl) false 16 sv h)
has_url_encoding_chars-all_bytes neon sv h =
    ap not (check-all_bytes IsByte is_plain is_plain (λ x p. refl) false 16 sv h)
has_url_encoding_chars-all_bytes portable sv h = refl

pub validate-all_bytes :
    (t : Target) (sv : Bytes)
    → All IsByte sv
    → (validate_uri_chars t sv ≡ all_bytes is_uri_char sv)
      × (validate_header_value t sv ≡ all_bytes is_value_char sv)
      × (validate_h2_h3_header_value t sv ≡ all_bytes is_h2_h3_char sv)
      × (has_url_encoding_chars t sv ≡ not (all_bytes is_plain sv))
validate-all_bytes t sv h = (
  validate_uri_chars-all_bytes t sv h,
  validate_header_value-all_bytes t sv h,
  validate_h2_h3-all_bytes t sv h,
  has_url_encoding_chars-all_bytes t sv h,
)
