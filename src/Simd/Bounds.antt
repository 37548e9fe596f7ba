-- ===== src/Simd/Bounds.antt =====
-- src/core/simd/SimdString.h: the places that a search returns.
use aegon.Base.{
  ℕ, suc, ◌+◌, ◌-◌, ◌≤◌, ◌<◌, ◌≡◌, refl, sym, ◌∙◌, true, Option, none, some, [], ◌∷◌, arith, length,
  length-drop, drop,
}
use aegon.Base.Bytes.{Bytes}
use aegon.Simd.{Target}
use aegon.Simd.Find.{starts_with, shift, find}
use aegon.Simd.Search.{index_of, find-index_of}

length-starts_with : (p rest : Bytes) → starts_with p rest ≡ true → length p ≤ length rest
unfolding starts_with
length-starts_with [] rest h = omega arith
length-starts_with (p ∷ ps) [] h = ground arith
length-starts_with (p ∷ ps) (x ∷ rest) h = ground (arith, length-starts_with ps rest)

-- The pattern fits in the text where it is found.
pub index_of-bound :
    (p : Bytes) (i : ℕ) (rest : Bytes) (k : ℕ)
    → index_of p i rest ≡ some k
    → (i ≤ k) × (k + length p ≤ i + length rest)
unfolding index_of
index_of-bound p i [] k h = ground arith
index_of-bound p i (x ∷ rest) k h =
    ground (arith, length-starts_with p (x ∷ rest), index_of-bound p (i + 1) rest k)

shift-bound :
    (pos n m : ℕ) (o : Option ℕ) (k : ℕ)
    → ((j : ℕ) → o ≡ some j → j + n ≤ m)
    → shift pos o ≡ some k
    → (pos ≤ k) × (k + n ≤ pos + m)
shift-bound pos n m none k h e = ground arith
shift-bound pos n m (some j) k h e = ground (arith, h j refl)

-- A search from past the end finds nothing.
find_past :
    (p : ℕ) (ps : Bytes) (t : Target) (sv : Bytes) (pos k : ℕ)
    → find t (p ∷ ps) sv pos ≡ some k
    → pos < length sv
unfolding find
find_past p ps t sv pos k h = ground arith

-- A match starts at `pos` or later and ends inside the text.
pub find-bound :
    (p : ℕ) (ps : Bytes) (t : Target) (sv : Bytes) (pos k : ℕ)
    → find t (p ∷ ps) sv pos ≡ some k
    → (pos ≤ k) × (k + suc (length ps) ≤ length sv)
find-bound p ps t sv pos k h =
    let inside = λ (j : ℕ) (e : index_of (p ∷ ps) 0 (drop pos sv) ≡ some j).
      index_of-bound (p ∷ ps) 0 (drop pos sv) j e in
    let (a, b) =
      shift-bound pos (suc (length ps)) (length sv - pos) (index_of (p ∷ ps) 0 (drop pos sv)) k
        (λ j e. omega (arith, (inside j e).1, length-drop pos sv))
        (sym (find-index_of p ps t sv pos) ∙ h) in
    (a, omega (arith, b, find_past p ps t sv pos k h))
