-- ===== src/Base/Bytes.antt =====
-- Bytes as numbers below 256, and words that memory holds with their highest byte first: what
-- `be16toh`, `be64toh`, `htobe16`, `htobe64`, `htonl` and `ntohl` read and write.
use Prim.Native.Nat.{ℕ, zero, suc, ◌+◌, ◌*◌, ◌/◌, ◌%◌, ◌^◌, ◌≤◌, ◌<◌}
use mathlib.Core.Path.{◌≡◌, refl, ap}
use mathlib.Core.Logic.{◌↔◌}
use mathlib.Core.Bool.{Bool, true, false, ◌&&◌}
use aegon.Base.Tests.{◌==◌}
use mathlib.Core.List.{List, [], ◌∷◌}
use native.Mathlib.Omega.{arith}
use native.Mathlib.Nat.{pow-suc, div-div-eq-div-mul, div-add-mod, mod-one, mul-le-mul_right}
use aegon.Base.Lists.{length, All}

abbrev pub Bytes : Type 0
Bytes = List ℕ

abbrev pub IsByte : ℕ → Type 0
IsByte b = b < 256

abbrev pub be_value : ℕ → Bytes → ℕ
be_value acc [] = acc
be_value acc (b ∷ bs) = be_value (acc * 256 + b) bs

abbrev pub be_bytes : ℕ → ℕ → Bytes
be_bytes zero v = []
be_bytes (suc n) v = (v / 256 ^ n % 256) ∷ be_bytes n v

pub length-be_bytes : (n v : ℕ) → length (be_bytes n v) ≡ n
length-be_bytes zero v = refl
length-be_bytes (suc n) v = ap suc (length-be_bytes n v)

pub be_bytes-IsByte : (n v : ℕ) → All IsByte (be_bytes n v)
be_bytes-IsByte zero v = tt
be_bytes-IsByte (suc n) v = (omega arith, be_bytes-IsByte n v)

split_top : (v p : ℕ) → v % (p * 256) ≡ v / p % 256 * p + v % p
split_top v p = omega (
  arith,
  div-add-mod v (p * 256),
  div-add-mod v p,
  ap (λ (q : ℕ). p * q) (div-add-mod (v / p) 256),
  ap (λ (q : ℕ). p * (256 * q)) (div-div-eq-div-mul v p 256),
)

-- Reading back the n lowest bytes of a word.
pub be_value-be_bytes : (n acc v : ℕ) → be_value acc (be_bytes n v) ≡ acc * 256 ^ n + v % 256 ^ n
be_value-be_bytes zero acc v = omega (arith, mod-one v)
be_value-be_bytes (suc n) acc v = omega (
  arith,
  be_value-be_bytes n (acc * 256 + v / 256 ^ n % 256) v,
  split_top v (256 ^ n),
  ap (λ (p : ℕ). v % p) (pow-suc 256 n),
  ap (λ (p : ℕ). acc * p) (pow-suc 256 n),
)

pub be_value-lt :
    (acc : ℕ) (bs : Bytes) → All IsByte bs → be_value acc bs < (acc + 1) * 256 ^ length bs
be_value-lt acc [] h = omega arith
be_value-lt acc (b ∷ bs) (hb, hbs) =
    let step : acc * 256 + b + 1 ≤ (acc + 1) * 256 = omega arith in
    omega (
      arith,
      be_value-lt (acc * 256 + b) bs hbs,
      mul-le-mul_right (256 ^ length bs) step,
      ap (λ (p : ℕ). (acc + 1) * p) (pow-suc 256 (length bs)),
    )

-- `==` of two strings.
unfoldable pub bytes_eq : Bytes → Bytes → Bool
bytes_eq [] [] = true
bytes_eq (x ∷ xs) (y ∷ ys) = x == y && bytes_eq xs ys
bytes_eq _ _ = false

pub bytes_eq_refl : (a : Bytes) → bytes_eq a a ≡ true
unfolding bytes_eq
bytes_eq_refl [] = refl
bytes_eq_refl (x ∷ xs) = ground (arith, bytes_eq_refl xs)

pub eq_of_bytes_eq : (a b : Bytes) → bytes_eq a b ≡ true → a ≡ b
unfolding bytes_eq
eq_of_bytes_eq [] [] h = refl
eq_of_bytes_eq [] (y ∷ ys) h = cc
eq_of_bytes_eq (x ∷ xs) [] h = cc
eq_of_bytes_eq (x ∷ xs) (y ∷ ys) h = ground (arith, eq_of_bytes_eq xs ys)

pub bytes_eq_iff : (a b : Bytes) → (bytes_eq a b ≡ true) ↔ (a ≡ b)
bytes_eq_iff a b = (eq_of_bytes_eq a b, λ e. rw e (bytes_eq_refl b))
