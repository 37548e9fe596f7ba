-- ===== src/Base/Bits.antt =====
-- Laws of `&`, `|` and `^` at variables, from the recursion on binary digits behind the native
-- operations: one step on the lowest digit, then masks of one bit, and `^` undoing itself.
use Prim.Native.Nat.{
  ℕ, zero, suc, ◌+◌, ◌-◌, ◌*◌, ◌/◌, ◌%◌, ◌^◌, ◌≤◌, ◌<◌, min, max, digits, differ, bit_and, bit_or,
  bit_xor, bit_and-bitwise, bit_or-bitwise, bit_xor-bitwise,
}
use mathlib.Core.Path.{◌≡◌, refl, sym, ap, ◌∙◌}
use native.Mathlib.Omega.{arith}
use native.Mathlib.Nat.{pow-suc, div-div-eq-div-mul, div-add-mod}

-- A first number that has run out leaves the rest to `z`, whatever the fuel.
digits_end : (z : ℕ → ℕ) (f : ℕ → ℕ → ℕ) (fuel y : ℕ) → digits z f fuel zero y ≡ z y
digits_end z f zero y = refl
digits_end z f (suc fuel) y = refl

-- Any two amounts of fuel that reach the first number's own value agree.
same_digits :
    (z : ℕ → ℕ) (f : ℕ → ℕ → ℕ) (x y p q : ℕ) → x ≤ p → x ≤ q → digits z f p x y ≡ digits z f q x y
same_digits z f zero y p q _ _ = digits_end z f p y ∙ sym (digits_end z f q y)
same_digits z f (suc x) y zero q h _ = absurd (omega arith)
same_digits z f (suc x) y (suc p) zero _ h = absurd (omega arith)
same_digits z f (suc x) y (suc p) (suc q) h k =
    rw (same_digits z f (suc x / 2) (y / 2) p q (omega arith) (omega arith))

and_zero_left : (b : ℕ) → bit_and 0 b ≡ 0
and_zero_left b = bit_and-bitwise 0 b

xor_zero_left : (b : ℕ) → bit_xor 0 b ≡ b
xor_zero_left b = bit_xor-bitwise 0 b

pub and_digit : (a b : ℕ) → bit_and a b ≡ min (a % 2) (b % 2) + 2 * bit_and (a / 2) (b / 2)
and_digit zero b = omega (arith, and_zero_left b, and_zero_left (b / 2))
and_digit (suc a) b =
    let z : ℕ → ℕ = λ _. zero in
    omega (
      arith,
      bit_and-bitwise (suc a) b,
      bit_and-bitwise (suc a / 2) (b / 2),
      same_digits z min (suc a / 2) (b / 2) a (suc a / 2) (omega arith) (omega arith),
    )

pub xor_digit : (a b : ℕ) → bit_xor a b ≡ differ (a % 2) (b % 2) + 2 * bit_xor (a / 2) (b / 2)
xor_digit zero b = omega (arith, xor_zero_left b, xor_zero_left (b / 2))
xor_digit (suc a) b =
    let z : ℕ → ℕ = λ x. x in
    omega (
      arith,
      bit_xor-bitwise (suc a) b,
      bit_xor-bitwise (suc a / 2) (b / 2),
      same_digits z differ (suc a / 2) (b / 2) a (suc a / 2) (omega arith) (omega arith),
    )

and_zero_fuel : (fuel : ℕ) {a : ℕ} → a ≤ fuel → bit_and a zero ≡ zero
and_zero_fuel fuel {a = zero} h = and_zero_left 0
and_zero_fuel zero {a = suc a} h = absurd (omega arith)
and_zero_fuel (suc fuel) {a = suc a} h =
    omega (arith, and_digit (suc a) 0, and_zero_fuel fuel {a = suc a / 2} (omega arith))

and_zero_right : (a : ℕ) → bit_and a 0 ≡ 0
and_zero_right a = and_zero_fuel a (omega arith)

double_pow : (k : ℕ) → 2 ^ suc k ≡ 2 * 2 ^ k
double_pow k = omega (arith, pow-suc 2 k)

-- A mask of the one bit k.
pub and_bit : (k a : ℕ) → bit_and a (2 ^ k) ≡ a / 2 ^ k % 2 * 2 ^ k
and_bit zero a = omega (arith, and_digit a 1, and_zero_right (a / 2))
and_bit (suc k) a =
    let half : 2 * 2 ^ k / 2 ≡ 2 ^ k = omega arith in
    rw (double_pow k) (
      omega (
        arith,
        and_digit a (2 * 2 ^ k),
        ap (bit_and (a / 2)) half,
        and_bit k (a / 2),
        ap (λ (q : ℕ). q % 2 * 2 ^ k) (div-div-eq-div-mul a 2 (2 ^ k)),
      ))

pow_pos : (k : ℕ) → 0 < 2 ^ k
pow_pos zero = omega arith
pow_pos (suc k) = omega (arith, double_pow k, pow_pos k)

mod_double : (a p : ℕ) → 0 < p → a % (2 * p) ≡ a / 2 % p * 2 + a % 2
mod_double a p h = omega (
  arith,
  div-add-mod a (2 * p),
  div-add-mod (a / 2) p,
  ap (λ (q : ℕ). p * q) (div-div-eq-div-mul a 2 p),
)

-- A mask of the k lowest bits.
pub and_low : (k a : ℕ) → bit_and a (2 ^ k - 1) ≡ a % 2 ^ k
and_low zero a = omega (arith, and_zero_right a)
and_low (suc k) a =
    let half : (2 * 2 ^ k - 1) / 2 ≡ 2 ^ k - 1 = omega (arith, pow_pos k) in
    rw (double_pow k) (
      omega (
        arith,
        pow_pos k,
        and_digit a (2 * 2 ^ k - 1),
        ap (bit_and (a / 2)) half,
        and_low k (a / 2),
        mod_double a (2 ^ k) (pow_pos k),
      ))

differ_cancel : (x y : ℕ) → x < 2 → y < 2 → differ (differ x y) y ≡ x
differ_cancel zero zero p q = refl
differ_cancel zero (suc zero) p q = refl
differ_cancel (suc zero) zero p q = refl
differ_cancel (suc zero) (suc zero) p q = refl
differ_cancel _ _ p q = absurd (omega arith)

differ_lt : (x y : ℕ) → x < 2 → y < 2 → differ x y < 2
differ_lt zero zero p q = omega arith
differ_lt zero (suc zero) p q = omega arith
differ_lt (suc zero) zero p q = omega arith
differ_lt (suc zero) (suc zero) p q = omega arith
differ_lt _ _ p q = absurd (omega arith)

xor_cancel_fuel : (n a b : ℕ) → a ≤ n → b ≤ n → bit_xor (bit_xor a b) b ≡ a
xor_cancel_fuel zero zero zero p q = refl
xor_cancel_fuel zero zero (suc b) p q = absurd (omega arith)
xor_cancel_fuel zero (suc a) b p q = absurd (omega arith)
xor_cancel_fuel (suc n) a b p q =
    let x : ℕ = bit_xor a b in
    let bit = differ_lt (a % 2) (b % 2) (omega arith) (omega arith) in
    let low : x % 2 ≡ differ (a % 2) (b % 2) = omega (arith, xor_digit a b) in
    let high : x / 2 ≡ bit_xor (a / 2) (b / 2) = omega (arith, xor_digit a b) in
    omega (
      arith,
      xor_digit x b,
      ap (λ (t : ℕ). bit_xor t (b / 2)) high,
      ap (λ (t : ℕ). differ t (b % 2)) low,
      differ_cancel (a % 2) (b % 2) (omega arith) (omega arith),
      xor_cancel_fuel n (a / 2) (b / 2) (omega arith) (omega arith),
    )

pub xor_cancel : (a b : ℕ) → bit_xor (bit_xor a b) b ≡ a
xor_cancel a b = xor_cancel_fuel (a + b) a b (omega arith) (omega arith)

differ_zero : (x : ℕ) → differ x 0 ≡ x
differ_zero zero = refl
differ_zero (suc x) = refl

xor_zero_fuel : (n a : ℕ) → a ≤ n → bit_xor a 0 ≡ a
xor_zero_fuel n zero h = xor_zero_left 0
xor_zero_fuel zero (suc a) h = absurd (omega arith)
xor_zero_fuel (suc n) (suc a) h =
    omega (
      arith,
      xor_digit (suc a) 0,
      differ_zero (suc a % 2),
      xor_zero_fuel n (suc a / 2) (omega arith),
    )

pub xor_zero_right : (a : ℕ) → bit_xor a 0 ≡ a
xor_zero_right a = xor_zero_fuel a a (omega arith)

or_zero_left : (b : ℕ) → bit_or 0 b ≡ b
or_zero_left b = bit_or-bitwise 0 b

pub or_digit : (a b : ℕ) → bit_or a b ≡ max (a % 2) (b % 2) + 2 * bit_or (a / 2) (b / 2)
or_digit zero b = omega (arith, or_zero_left b, or_zero_left (b / 2))
or_digit (suc a) b =
    let z : ℕ → ℕ = λ x. x in
    omega (
      arith,
      bit_or-bitwise (suc a) b,
      bit_or-bitwise (suc a / 2) (b / 2),
      same_digits z max (suc a / 2) (b / 2) a (suc a / 2) (omega arith) (omega arith),
    )

or_zero_fuel : (n a : ℕ) → a ≤ n → bit_or a 0 ≡ a
or_zero_fuel n zero h = or_zero_left 0
or_zero_fuel zero (suc a) h = absurd (omega arith)
or_zero_fuel (suc n) (suc a) h =
    omega (arith, or_digit (suc a) 0, or_zero_fuel n (suc a / 2) (omega arith))

-- `(a << k) | b` where b has k bits.
pub or_shift : (k a b : ℕ) → b < 2 ^ k → bit_or (a * 2 ^ k) b ≡ a * 2 ^ k + b
or_shift zero a zero h = omega (arith, or_zero_fuel (a * 1) (a * 1) (omega arith))
or_shift zero a (suc b) h = absurd (omega arith)
or_shift (suc k) a b h =
    let wide : a * 2 ^ suc k ≡ 2 * (a * 2 ^ k) =
      omega (arith, ap (λ (p : ℕ). a * p) (double_pow k)) in
    let half : a * 2 ^ suc k / 2 ≡ a * 2 ^ k = omega (arith, wide) in
    omega (
      arith,
      wide,
      or_digit (a * 2 ^ suc k) b,
      ap (λ (t : ℕ). bit_or t (b / 2)) half,
      or_shift k a (b / 2) (omega (arith, double_pow k)),
    )
