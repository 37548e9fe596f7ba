-- ===== src/Simd/Pieces.antt =====
-- src/core/simd/SimdString.h: a check of every character, on a piece of the text.
use aegon.Base.{ℕ, zero, suc, ◌≡◌, refl, Bool, true, List, [], ◌∷◌, arith, take, drop}
use aegon.Simd.Check.{all_bytes}

module _ {ℓ} {A : Type ℓ} (test : A → Bool) where
  pub all_bytes-take :
      (n : ℕ) (xs : List A) → all_bytes test xs ≡ true → all_bytes test (take n xs) ≡ true
  unfolding all_bytes
  all_bytes-take zero xs h = refl
  all_bytes-take (suc n) [] h = refl
  all_bytes-take (suc n) (x ∷ xs) h = ground (arith, h, all_bytes-take n xs)

  pub all_bytes-drop :
      (n : ℕ) (xs : List A) → all_bytes test xs ≡ true → all_bytes test (drop n xs) ≡ true
  unfolding all_bytes
  all_bytes-drop zero xs h = h
  all_bytes-drop (suc n) [] h = refl
  all_bytes-drop (suc n) (x ∷ xs) h = ground (arith, h, all_bytes-drop n xs)
