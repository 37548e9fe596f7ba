-- ===== src/Simd.antt =====
-- src/core/simd/SimdString.h: the searches and checks on text, for each instruction set they are
-- compiled for. A vector register is the list of its lanes, a comparison mask the list of its bits.
pub mod Find
pub mod Check
pub mod Search
pub mod Bounds
pub mod Pieces
pub mod Lanes
pub mod Compare
mod Tests
use aegon.Base.{
  ℕ, zero, suc, ◌+◌, ◌%◌, Bool, true, false, ◌&&◌, ◌||◌, List, [], ◌∷◌, ltb, ◌==◌, if◌then◌else◌,
}
use aegon.Base.Bytes.{Bytes}

-- The compile-time choices, best first; `portable` has none of them.
pub data Target : Type 0 where
  avx512 avx2 sse42 neon portable : Target

-- _mm_cmpgt_epi8 compares signed lanes; vcgtq_u8 compares unsigned ones.
unfoldable pub gt_epi8 : ℕ → ℕ → Bool
gt_epi8 a b = ltb ((b + 128) % 256) ((a + 128) % 256)

abbrev pub cmpeq : ℕ → Bytes → List Bool
cmpeq c [] = []
cmpeq c (x ∷ xs) = (x == c) ∷ cmpeq c xs

abbrev pub and_mask : List Bool → List Bool → List Bool
and_mask (x ∷ xs) (y ∷ ys) = (x && y) ∷ and_mask xs ys
and_mask _ _ = []

-- mask != 0
abbrev pub any_set : List Bool → Bool
any_set [] = false
any_set (b ∷ bs) = b || any_set bs

-- mask == all ones
abbrev pub all_set : List Bool → Bool
all_set [] = true
all_set (b ∷ bs) = b && all_set bs

abbrev pub countr_zero : List Bool → ℕ
countr_zero [] = 0
countr_zero (b ∷ bs) = if b then 0 else suc (countr_zero bs)
