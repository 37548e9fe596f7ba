-- ===== src/Simd/Find.antt =====
-- src/core/simd/SimdString.h: find_char, find_crlf and find_double_crlf. The three have the same
-- steps for one, two and four bytes in a row, the `pattern`.
use aegon.Base.{
  ℕ, zero, suc, ◌+◌, ◌-◌, Bool, true, false, ◌&&◌, ◌||◌, Option, none, some, List, [], ◌∷◌, ltb,
  leb, ◌==◌, if◌then◌else◌, length, take, drop,
}
use aegon.Base.Bytes.{Bytes}
use aegon.Simd.{Target, avx512, avx2, sse42, neon, portable, cmpeq, and_mask, any_set, countr_zero}

-- c0 & c1 & …: the j-th register is loaded from ptr + i + j.
unfoldable pub match_mask : ℕ → Bytes → Bytes → List Bool
match_mask w [] rest = []
match_mask w (p ∷ []) rest = cmpeq p (take w rest)
match_mask w (p ∷ q ∷ ps) rest =
    let later = match_mask w (q ∷ ps) (drop 1 rest) in and_mask (cmpeq p (take w rest)) later

-- Where a loop over whole registers stops: at a match, or with `rest` left at index `i`.
pub data Scan : Type 0 where
  found : ℕ → Scan
  left : ℕ → Bytes → Scan

-- for (; i + w + extra <= len; i += w), where `extra` is one less than the pattern's length.
unfoldable pub scan_chunks : ℕ → ℕ → Bytes → ℕ → Bytes → Scan
unfolding match_mask
scan_chunks zero w pattern i rest = left i rest
scan_chunks (suc fuel) w pattern i rest =
    let more = scan_chunks fuel w pattern (i + w) (drop w rest) in
    let mask = match_mask w pattern rest in
    if leb (w + (length pattern - 1)) (length rest)
    then (if any_set mask then found (i + countr_zero mask) else more)
    else left i rest

-- ptr[i] == p && ptr[i + 1] == q && …
unfoldable pub starts_with : Bytes → Bytes → Bool
starts_with [] rest = true
starts_with (p ∷ ps) [] = false
starts_with (p ∷ ps) (x ∷ rest) = x == p && starts_with ps rest

-- The scalar remainder: for (; i + extra < len; ++i).
unfoldable pub scan_bytes : Bytes → ℕ → Bytes → Option ℕ
unfolding starts_with
scan_bytes pattern i [] = none
scan_bytes pattern i (x ∷ rest) =
    let more = scan_bytes pattern (i + 1) rest in
    if ltb (length pattern - 1) (length (x ∷ rest))
    then (if starts_with pattern (x ∷ rest) then some i else more)
    else none

-- The masked load of what is left, on AVX-512.
unfoldable pub scan_tail : Bytes → ℕ → Bytes → Option ℕ
unfolding match_mask
scan_tail pattern i rest =
    let mask = match_mask (length rest - (length pattern - 1)) pattern rest in
    if ltb (length pattern - 1) (length rest)
    then (if any_set mask then some (i + countr_zero mask) else none)
    else none

abbrev pub after_scan : (ℕ → Bytes → Option ℕ) → Scan → Option ℕ
after_scan remainder (found i) = some i
after_scan remainder (left i rest) = remainder i rest

unfoldable pub scan : Target → Bytes → Bytes → Option ℕ
unfolding scan_chunks scan_tail scan_bytes
scan avx512 p bytes = after_scan (scan_tail p) (scan_chunks (length bytes) 64 p 0 bytes)
scan avx2 p bytes = after_scan (scan_bytes p) (scan_chunks (length bytes) 32 p 0 bytes)
scan sse42 p bytes = after_scan (scan_bytes p) (scan_chunks (length bytes) 16 p 0 bytes)
scan neon p bytes = after_scan (scan_bytes p) (scan_chunks (length bytes) 16 p 0 bytes)
scan portable p bytes = scan_bytes p 0 bytes

abbrev pub shift : ℕ → Option ℕ → Option ℕ
shift pos none = none
shift pos (some i) = some (pos + i)

unfoldable pub find : Target → Bytes → Bytes → ℕ → Option ℕ
unfolding scan
find t pattern sv pos =
    if leb (length sv) pos || ltb (length sv - pos) (length pattern)
    then none
    else shift pos (scan t pattern (drop pos sv))

abbrev pub find_char : Target → Bytes → ℕ → ℕ → Option ℕ
find_char t sv c pos = find t (c ∷ []) sv pos

abbrev pub find_crlf : Target → Bytes → ℕ → Option ℕ
find_crlf t sv pos = find t (13 ∷ 10 ∷ []) sv pos

abbrev pub find_double_crlf : Target → Bytes → ℕ → Option ℕ
find_double_crlf t sv pos = find t (13 ∷ 10 ∷ 13 ∷ 10 ∷ []) sv pos
