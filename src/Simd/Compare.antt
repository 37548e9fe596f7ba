-- ===== src/Simd/Compare.antt =====
-- src/core/simd/SimdString.h: the vector comparison beside the scalar one.
use aegon.Base.{
  ℕ, ◌≡◌, refl, not, Bool, true, false, ◌&&◌, List, [], ◌∷◌, arith, ◌==◌, length, All, ==_iff,
  passes_below, passes_below_lem,
}
use aegon.Base.Bytes.{Bytes, IsByte}
use aegon.Simd.{Target, avx512, avx2, sse42, neon, portable}
use aegon.HeaderMap
use aegon.HeaderMap.{to_lower}
use aegon.Simd.Check.{
  all_bytes, pairs, lower_or, lower_neon, lower_add, same_lane, compare_text, iequals, is_uri_char,
  validate_uri_chars, is_value_char, validate_header_value, is_h2_h3_char,
  validate_h2_h3_header_value, is_plain, has_url_encoding_chars,
}
use aegon.Simd.Lanes.{validate-all_bytes, check-all_bytes, all_set-map}

abbrev BytePair : ℕ × ℕ → Type 0
BytePair (x, y) = IsByte x × IsByte y

-- Each way to lower a lane, on all bytes.
abbrev agrees : ℕ → Bool
agrees x =
    (lower_or x == to_lower x) && ((lower_neon x == to_lower x) && (lower_add x == to_lower x))

agrees_table : passes_below agrees 256 ≡ true
unfolding passes_below lower_or lower_add to_lower
agrees_table = refl

lanes_lower :
    (x : ℕ)
    → IsByte x
    → (lower_or x ≡ to_lower x) × (lower_neon x ≡ to_lower x) × (lower_add x ≡ to_lower x)
lanes_lower x h =
    let t = passes_below_lem agrees 256 x h agrees_table in
    ground (
      arith,
      ==_iff (lower_or x) (to_lower x),
      ==_iff (lower_neon x) (to_lower x),
      ==_iff (lower_add x) (to_lower x),
    )

module _ (lower : ℕ → ℕ) (same : (x : ℕ) → IsByte x → lower x ≡ to_lower x) where
  same_lane-to_lower : (p : ℕ × ℕ) → BytePair p → same_lane lower p ≡ same_lane to_lower p
  same_lane-to_lower (x, y) (hx, hy) = rw (same x hx, same y hy) refl

compare_text-all_bytes :
    (t : Target) (ps : List (ℕ × ℕ))
    → All BytePair ps
    → compare_text t ps ≡ all_bytes (same_lane to_lower) ps
unfolding compare_text
compare_text-all_bytes avx512 ps h =
    let s = same_lane-to_lower lower_add (λ x p. (lanes_lower x p).2) in
    ground (
      arith,
      all_set-map BytePair (same_lane lower_add) (same_lane to_lower) s ps h,
      check-all_bytes BytePair (same_lane lower_add) (same_lane to_lower) s true 64 ps h,
    )
compare_text-all_bytes avx2 ps h =
    let s = same_lane-to_lower lower_or (λ x p. (lanes_lower x p).0) in
    check-all_bytes BytePair (same_lane lower_or) (same_lane to_lower) s false 32 ps h
compare_text-all_bytes sse42 ps h =
    let s = same_lane-to_lower lower_or (λ x p. (lanes_lower x p).0) in
    check-all_bytes BytePair (same_lane lower_or) (same_lane to_lower) s false 16 ps h
compare_text-all_bytes neon ps h =
    let s = same_lane-to_lower lower_neon (λ x p. (lanes_lower x p).1) in
    check-all_bytes BytePair (same_lane lower_neon) (same_lane to_lower) s false 16 ps h
compare_text-all_bytes portable ps h = refl

pairs-BytePair : (a b : Bytes) → All IsByte a → All IsByte b → All BytePair (pairs a b)
pairs-BytePair [] b ha hb = tt
pairs-BytePair (x ∷ xs) [] ha hb = tt
pairs-BytePair (x ∷ xs) (y ∷ ys) (hx, ha) (hy, hb) = ((hx, hy), pairs-BytePair xs ys ha hb)

-- Texts of one length, and of different lengths.
all_bytes-pairs :
    (a b : Bytes)
    → HeaderMap.iequals a b ≡ ((length a == length b) && all_bytes (same_lane to_lower) (pairs a b))
unfolding all_bytes HeaderMap.iequals
all_bytes-pairs [] [] = refl
all_bytes-pairs [] (y ∷ ys) = ground arith
all_bytes-pairs (x ∷ xs) [] = ground arith
all_bytes-pairs (x ∷ xs) (y ∷ ys) = ground (arith, all_bytes-pairs xs ys)

iequals-target :
    (t : Target) (a b : Bytes) → All IsByte a → All IsByte b → iequals t a b ≡ HeaderMap.iequals a b
unfolding iequals
iequals-target t [] b ha hb = rw (all_bytes-pairs [] b) (unfold all_bytes in ground arith)
iequals-target t (x ∷ xs) b ha hb =
    rw
      (
        all_bytes-pairs (x ∷ xs) b,
        compare_text-all_bytes t (pairs (x ∷ xs) b) (pairs-BytePair (x ∷ xs) b ha hb),
      )
      (ground arith)

-- On every target and every text of bytes, each of the four checks accepts exactly the texts whose
-- characters all pass the test of its scalar loop, and two texts are equal without case exactly
-- where the scalar loop says so: signed and unsigned comparisons of lanes, saturating subtraction
-- and masked loads decide the same.
pub checks_on_target :
    (t : Target) (a b : Bytes)
    → All IsByte a
    → All IsByte b
    → ((validate_uri_chars t a ≡ all_bytes is_uri_char a)
        × (validate_header_value t a ≡ all_bytes is_value_char a)
        × (validate_h2_h3_header_value t a ≡ all_bytes is_h2_h3_char a)
        × (has_url_encoding_chars t a ≡ not (all_bytes is_plain a)))
      × (iequals t a b ≡ HeaderMap.iequals a b)
checks_on_target t a b ha hb = (validate-all_bytes t a ha, iequals-target t a b ha hb)
