-- ===== src/Simd/Search.antt =====
-- src/core/simd/SimdString.h: the vector searches beside the plain search.
use aegon.Base.{
  ℕ, zero, suc, ◌+◌, ◌-◌, ◌≤◌, ◌<◌, ◌≡◌, refl, ap, false, Option, none, some, [], ◌∷◌, arith,
  if◌then◌else◌, length, length-drop, drop,
}
use aegon.Base.Bytes.{Bytes}
use aegon.Simd.{Target, avx512, avx2, sse42, neon, portable, any_set, countr_zero}
use aegon.Simd.Find.{
  match_mask, scan_chunks, starts_with, scan_bytes, scan_tail, after_scan, scan, shift, find,
}

-- The first index, counted from `i`, where the pattern stands.
unfoldable pub index_of : Bytes → ℕ → Bytes → Option ℕ
unfolding starts_with
index_of pattern i [] = none
index_of pattern i (x ∷ rest) =
    let more = index_of pattern (i + 1) rest in
    if starts_with pattern (x ∷ rest) then some i else more

-- A pattern does not start a shorter text.
starts_with_short : (p rest : Bytes) → length rest < length p → starts_with p rest ≡ false
unfolding starts_with
starts_with_short [] rest h = absurd (omega arith)
starts_with_short (p ∷ ps) [] h = refl
starts_with_short (p ∷ ps) (x ∷ rest) h = ground (arith, starts_with_short ps rest)

index_of_short :
    (p : Bytes) (i : ℕ) (rest : Bytes) → length rest < length p → index_of p i rest ≡ none
unfolding index_of
index_of_short p i [] h = refl
index_of_short p i (x ∷ rest) h =
    rw (starts_with_short p (x ∷ rest) h, index_of_short p (i + 1) rest (omega arith)) refl

-- A mask of one lane more starts with the bit of the first byte.
match_mask-suc :
    (n p : ℕ) (ps : Bytes) (x : ℕ) (rest : Bytes)
    → n + length ps ≤ length rest
    → match_mask (suc n) (p ∷ ps) (x ∷ rest)
      ≡ starts_with (p ∷ ps) (x ∷ rest) ∷ match_mask n (p ∷ ps) rest
unfolding match_mask starts_with
match_mask-suc n p [] x rest h = ground arith
match_mask-suc n p (q ∷ ps) x [] h = absurd (omega arith)
match_mask-suc n p (q ∷ ps) x (y ∷ rest) h = rw (match_mask-suc n q ps y rest (omega arith)) refl

-- No lanes, no bits.
match_mask_none : (p : ℕ) (ps rest : Bytes) → match_mask 0 (p ∷ ps) rest ≡ []
unfolding match_mask
match_mask_none p [] rest = refl
match_mask_none p (q ∷ ps) rest = refl

module _ (p : ℕ) (ps : Bytes) where
  -- One register decides the search for the positions that its lanes stand for.
  index_of-match_mask :
      (n i : ℕ) (rest : Bytes)
      → n + length ps ≤ length rest
      → index_of (p ∷ ps) i rest ≡ (
          if any_set (match_mask n (p ∷ ps) rest)
          then some (i + countr_zero (match_mask n (p ∷ ps) rest))
          else index_of (p ∷ ps) (i + n) (drop n rest))
  unfolding index_of
  index_of-match_mask zero i rest h =
      let e : i + 0 ≡ i = omega arith in rw (match_mask_none p ps rest, e) refl
  index_of-match_mask (suc n) i [] h = absurd (omega arith)
  index_of-match_mask (suc n) i (x ∷ rest) h =
      let e : i + 1 + n ≡ i + suc n = omega arith in
      rw (match_mask-suc n p ps x rest (omega arith)) (
        ground (
          arith,
          index_of-match_mask n (i + 1) rest,
          ap (λ j. index_of (p ∷ ps) j (drop n rest)) e,
        ))

  scan_chunks-index_of :
      (remainder : ℕ → Bytes → Option ℕ)
      → ((i : ℕ) (rest : Bytes) → remainder i rest ≡ index_of (p ∷ ps) i rest)
      → (fuel w i : ℕ) (rest : Bytes)
      → after_scan remainder (scan_chunks fuel w (p ∷ ps) i rest) ≡ index_of (p ∷ ps) i rest
  unfolding scan_chunks
  scan_chunks-index_of remainder same zero w i rest = same i rest
  scan_chunks-index_of remainder same (suc fuel) w i rest = ground (
    arith,
    same i rest,
    index_of-match_mask w i rest,
    scan_chunks-index_of remainder same fuel w (i + w) (drop w rest),
  )

  scan_bytes-index_of :
      (i : ℕ) (rest : Bytes) → scan_bytes (p ∷ ps) i rest ≡ index_of (p ∷ ps) i rest
  unfolding scan_bytes index_of
  scan_bytes-index_of i [] = refl
  scan_bytes-index_of i (x ∷ rest) = ground (
    arith,
    scan_bytes-index_of (i + 1) rest,
    starts_with_short (p ∷ ps) (x ∷ rest),
    index_of_short (p ∷ ps) (i + 1) rest,
  )

  scan_tail-index_of : (i : ℕ) (rest : Bytes) → scan_tail (p ∷ ps) i rest ≡ index_of (p ∷ ps) i rest
  unfolding scan_tail
  scan_tail-index_of i rest =
      let n : ℕ = length rest - (suc (length ps) - 1) in
      ground (
        arith,
        index_of-match_mask n i rest,
        index_of_short (p ∷ ps) i rest,
        index_of_short (p ∷ ps) (i + n) (drop n rest),
        length-drop n rest,
      )

  scan-index_of : (t : Target) (bytes : Bytes) → scan t (p ∷ ps) bytes ≡ index_of (p ∷ ps) 0 bytes
  unfolding scan
  scan-index_of avx512 bytes =
      scan_chunks-index_of (scan_tail (p ∷ ps)) scan_tail-index_of (length bytes) 64 0 bytes
  scan-index_of avx2 bytes =
      scan_chunks-index_of (scan_bytes (p ∷ ps)) scan_bytes-index_of (length bytes) 32 0 bytes
  scan-index_of sse42 bytes =
      scan_chunks-index_of (scan_bytes (p ∷ ps)) scan_bytes-index_of (length bytes) 16 0 bytes
  scan-index_of neon bytes =
      scan_chunks-index_of (scan_bytes (p ∷ ps)) scan_bytes-index_of (length bytes) 16 0 bytes
  scan-index_of portable bytes = scan_bytes-index_of 0 bytes

  -- Whatever instruction set it is compiled for, a search finds the first position from `pos` on
  -- where the pattern of one or more bytes stands, and nothing where there is none.
  pub find-index_of :
      (t : Target) (sv : Bytes) (pos : ℕ)
      → find t (p ∷ ps) sv pos ≡ shift pos (index_of (p ∷ ps) 0 (drop pos sv))
  unfolding find
  find-index_of t sv pos =
      rw (scan-index_of t (drop pos sv))
        (ground (arith, index_of_short (p ∷ ps) 0 (drop pos sv), length-drop pos sv))
