-- ===== src/Base/Decimal.antt =====
-- Decimal numbers as text: `std::to_string`, `std::stoll` and `std::from_chars`, of the C++ library.
use Prim.Native.Nat.{ℕ, zero, suc, ◌+◌, ◌-◌, ◌*◌, ◌/◌, ◌%◌, ◌^◌, ◌≤◌, ◌<◌}
use mathlib.Core.Path.{◌≡◌, refl, ◌∙◌}
use mathlib.Core.Bool.{Bool, true, false, ◌&&◌, ◌||◌}
use mathlib.Core.Option.{Option, none, some}
use mathlib.Core.List.{[], ◌∷◌}
use native.Mathlib.Omega.{arith}
use native.Mathlib.Decide.{ℕ_discrete}
use native.Mathlib.Numerals.{add-one}
use native.Mathlib.Nat.{pow-suc}
use aegon.Base.Tests.{ltb, leb, ◌==◌, if◌then◌else◌}
use aegon.Base.Bytes.{Bytes}
use aegon.Base.Lists.{length, All}

-- `negsuc n` is -(n + 1).
pub data ℤ : Type 0 where
  pos : ℕ → ℤ
  negsuc : ℕ → ℤ

abbrev pub negate : ℕ → ℤ
negate zero = pos 0
negate (suc n) = negsuc n

unfoldable pub is_digit : ℕ → Bool
is_digit c = leb b'0' c && leb c b'9'

-- The digits of `n` in front of `tail`, with fuel for the digits.
unfoldable pub print : ℕ → ℕ → Bytes → Bytes
print zero n tail = tail
print (suc f) n tail =
    let tail' = (n % 10 + 48) ∷ tail in
    let more = print f (n / 10) tail' in if n / 10 == 0 then tail' else more

-- Twenty digits are enough for any 64-bit number.
unfoldable pub to_string : ℕ → Bytes
unfolding print
to_string n = print 20 n []

unfoldable pub to_string_int : ℤ → Bytes
unfolding to_string
to_string_int (pos n) = to_string n
to_string_int (negsuc n) = b'-' ∷ to_string (n + 1)

-- The number that the leading digits make, and the rest.
unfoldable pub read : ℕ → Bytes → ℕ × Bytes
unfolding is_digit
read acc [] = (acc, [])
read acc (c ∷ cs) = if is_digit c then read (acc * 10 + (c - 48)) cs else (acc, c ∷ cs)

abbrev pub starts_with_digit : Bytes → Bool
starts_with_digit [] = false
starts_with_digit (c ∷ cs) = is_digit c

-- A digit sequence as a 64-bit number with its sign; `none` for no digit and for out of range.
unfoldable pub read_int64 : Bool → Bytes → Option (ℤ × Bytes)
unfolding read is_digit
read_int64 minus cs =
    let (n, rest) = read 0 cs in
    if starts_with_digit cs
    then (if minus
        then (if leb n (2 ^ 63) then some (negate n, rest) else none)
        else if ltb n (2 ^ 63)
        then some (pos n, rest)
        else none)
    else none

abbrev first : Option (ℤ × Bytes) → Option ℤ
first none = none
first (some (z, _)) = some z

-- `std::from_chars` on an int64_t: a minus sign, then digits; what follows them is not looked at.
unfoldable pub from_chars : Bytes → Option ℤ
from_chars [] = none
from_chars (c ∷ cs) = first (if c == b'-' then read_int64 true cs else read_int64 false (c ∷ cs))

unfoldable pub is_space : ℕ → Bool
is_space c = c == 32 || leb 9 c && leb c 13

-- `std::stoll`: white space, one sign, then digits. `none` is an exception.
unfoldable pub stoll : Bytes → Option ℤ
unfolding is_space
stoll [] = none
stoll (c ∷ cs) =
    if is_space c
    then stoll cs
    else first (
        if c == b'-'
        then read_int64 true cs
        else if c == b'+'
        then read_int64 false cs
        else read_int64 false (c ∷ cs))

pub read-print :
    (f n : ℕ) (tail : Bytes) → n < 10 ^ suc f → read 0 (print (suc f) n tail) ≡ read n tail
unfolding read print
read-print zero n tail h = ground arith
read-print (suc f) n tail h =
    ground (arith, pow-suc 10 (suc f), read-print f (n / 10) ((n % 10 + 48) ∷ tail))

print_head :
    (f n : ℕ) (tail : Bytes)
    → (d : ℕ) × (t : Bytes) × (print (suc f) n tail ≡ d ∷ t) × (48 ≤ d) × (d ≤ 57)
unfolding print
print_head zero n tail = (n % 10 + 48, tail, ground arith, omega arith, omega arith)
print_head (suc f) n tail = elim (ℕ_discrete (n / 10) 0) [
  | yes e ↦ (n % 10 + 48, tail, ground arith, omega arith, omega arith)
  | no ne ↦
      let (d, t, e, lo, hi) = print_head f (n / 10) ((n % 10 + 48) ∷ tail) in
      (d, t, ground arith, lo, hi)
]

-- A 64-bit number that was printed is read back, with nothing left.
pub read-to_string : (n : ℕ) → n < 2 ^ 64 → read 0 (to_string n) ≡ (n, [])
unfolding to_string
read-to_string n h = read-print 19 n [] (omega arith) ∙ (unfold read in refl)

pub to_string_head : (n : ℕ) → (d : ℕ) × (t : Bytes) × (to_string n ≡ d ∷ t) × (48 ≤ d) × (d ≤ 57)
unfolding to_string
to_string_head n = print_head 19 n []

abbrev pub IsInt64 : ℤ → Type 0
IsInt64 (pos n) = n < 2 ^ 63
IsInt64 (negsuc n) = n < 2 ^ 63

starts_with_digit-to_string : (n : ℕ) → starts_with_digit (to_string n) ≡ true
unfolding is_digit
starts_with_digit-to_string n = let (d, t, e, lo, hi) = to_string_head n in rw e (ground arith)

read_int64-to_string :
    (minus : Bool) (n : ℕ)
    → n < 2 ^ 64
    → read_int64 minus (to_string n) ≡ (
        if minus
        then (if leb n (2 ^ 63) then some (negate n, []) else none)
        else if ltb n (2 ^ 63)
        then some (pos n, [])
        else none)
unfolding read_int64
read_int64-to_string minus n h = rw (read-to_string n h, starts_with_digit-to_string n)

module _ (n : ℕ) where
  -- The sign is looked for before the digits: a printed number starts with none.
  from_chars_digits : from_chars (to_string n) ≡ first (read_int64 false (to_string n))
  unfolding from_chars
  from_chars_digits = let (d, t, e, lo, hi) = to_string_head n in rw e (ground arith)

  stoll_digits : stoll (to_string n) ≡ first (read_int64 false (to_string n))
  unfolding stoll
  stoll_digits = let (d, t, e, lo, hi) = to_string_head n in rw e (ground arith)

  pos_back : n < 2 ^ 63 → first (read_int64 false (to_string n)) ≡ some (pos n)
  pos_back h = rw (read_int64-to_string false n (omega arith)) (ground arith)

  negsuc_back : n < 2 ^ 63 → first (read_int64 true (to_string (n + 1))) ≡ some (negsuc n)
  negsuc_back h = rw (read_int64-to_string true (n + 1) (omega arith), add-one) (ground arith)

-- A 64-bit integer that was printed is read back, by each of the two readers.
pub from_chars-to_string_int : (z : ℤ) → IsInt64 z → from_chars (to_string_int z) ≡ some z
unfolding to_string_int
from_chars-to_string_int (pos n) h = from_chars_digits n ∙ pos_back n h
from_chars-to_string_int (negsuc n) h = unfold from_chars in negsuc_back n h

pub stoll-to_string_int : (z : ℤ) → IsInt64 z → stoll (to_string_int z) ≡ some z
unfolding to_string_int
stoll-to_string_int (pos n) h = stoll_digits n ∙ pos_back n h
stoll-to_string_int (negsuc n) h = unfold stoll in negsuc_back n h

-- A printed number is at most twenty digits.
print-IsDigit :
    (f n : ℕ) (tail : Bytes)
    → All (λ c. 48 ≤ c) tail
    → All (λ c. 48 ≤ c) (print f n tail) × (length (print f n tail) ≤ f + length tail)
unfolding print
print-IsDigit zero n tail h = (h, omega arith)
print-IsDigit (suc f) n tail h =
    let (a, b) = print-IsDigit f (n / 10) ((n % 10 + 48) ∷ tail) (omega arith, h) in
    elim (ℕ_discrete (n / 10) 0) [
      | yes e ↦ (rw e (omega arith, h), rw e (omega arith))
      | no ne ↦ ground (arith, a, b)
    ]

pub to_string-IsDigit : (n : ℕ) → All (λ c. 48 ≤ c) (to_string n) × (length (to_string n) ≤ 20)
unfolding to_string
to_string-IsDigit n = print-IsDigit 20 n [] tt
