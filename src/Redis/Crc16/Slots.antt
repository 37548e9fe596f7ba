-- ===== src/Redis/Crc16/Slots.antt =====
-- src/data/redis/Crc16.h: the part of a key that decides its slot, and the table.
use Prim.Native.Nat.{bit_xor}
use aegon.Base.{
  ℕ, zero, suc, ◌+◌, ◌*◌, ◌%◌, ◌<◌, ◌≡◌, ◌∙◌, refl, ap, false, some, List, [], ◌∷◌, ◌++◌, arith,
  All, ◌==◌, leb, if◌then◌else◌, get_or,
}
use aegon.Base.Bytes.{Bytes}
use aegon.Redis.Crc16.{crc16_table, crc16, up_to_close, hash_tag, hashed_part, key_slot}

-- Not the given byte.
abbrev pub IsOther : ℕ → ℕ → Type 0
IsOther brace c = (c == brace) ≡ false

up_to_close-append :
    (tag after : Bytes) → All (IsOther b'}') tag → up_to_close (tag ++ (b'}' ∷ after)) ≡ some tag
unfolding up_to_close
up_to_close-append [] after h = refl
up_to_close-append (c ∷ cs) after (hc, h) = rw (hc, up_to_close-append cs after h) refl

hash_tag-append :
    (before tag after : Bytes)
    → All (IsOther b'{') before
    → All (IsOther b'}') tag
    → hash_tag (before ++ (b'{' ∷ (tag ++ (b'}' ∷ after)))) ≡ some tag
unfolding hash_tag
hash_tag-append [] tag after hb h = up_to_close-append tag after h
hash_tag-append (c ∷ cs) tag after (hc, hb) h = rw hc (hash_tag-append cs tag after hb h)

-- The slot of a key that holds a tag in braces is the checksum of the tag alone, where the tag is
-- not empty, holds no closing brace, and no opening brace stands before it: keys with the same tag
-- fall into one slot, whatever stands around it.
pub key_slot-hash_tag :
    (before : Bytes) (c : ℕ) (cs after : Bytes)
    → All (IsOther b'{') before
    → All (IsOther b'}') (c ∷ cs)
    → key_slot (before ++ (b'{' ∷ ((c ∷ cs) ++ (b'}' ∷ after)))) ≡ crc16 (c ∷ cs) % 16384
unfolding key_slot
key_slot-hash_tag before c cs after hb h =
    ap (λ o. crc16 (hashed_part (before ++ (b'{' ∷ ((c ∷ cs) ++ (b'}' ∷ after)))) o) % 16384)
      (hash_tag-append before (c ∷ cs) after hb h)

-- One bit of the division by the polynomial x^16 + x^12 + x^5 + 1, on a 16-bit register.
abbrev pub division_bit : ℕ → ℕ
division_bit x = if leb 0x8000 x then bit_xor (x * 2 % 0x10000) 0x1021 else x * 2

unfoldable pub divide : ℕ → ℕ → ℕ
divide zero x = x
divide (suc n) x = divide n (division_bit x)

-- The remainders of the numbers from `i` on, as the table lists them.
remainders : ℕ → ℕ → List ℕ
unfolding divide
remainders zero i = []
remainders (suc n) i = divide 8 (i * 256) ∷ remainders n (i + 1)

get_or-remainders : (n i k : ℕ) → k < n → get_or (remainders n i) k 0 ≡ divide 8 ((i + k) * 256)
unfolding remainders
get_or-remainders zero i k h = absurd (omega arith)
get_or-remainders (suc n) i zero h = ap (λ j. divide 8 (j * 256)) (omega arith)
get_or-remainders (suc n) i (suc k) h =
    let e : i + 1 + k ≡ i + suc k = omega arith in
    get_or-remainders n (i + 1) k (omega arith) ∙ ap (λ j. divide 8 (j * 256)) e

table-remainders : crc16_table ≡ remainders 256 0
unfolding remainders
table-remainders = refl

-- Each of the 256 entries of the table is what eight steps of the bitwise division leave of its
-- index, placed in the upper half of the register.
pub crc16_table-divide : (k : ℕ) → k < 256 → get_or crc16_table k 0 ≡ divide 8 (k * 256)
crc16_table-divide k h =
    let e : 0 + k ≡ k = omega arith in
    ap (λ (t : List ℕ). get_or t k 0) table-remainders
    ∙ get_or-remainders 256 0 k h
    ∙ ap (λ j. divide 8 (j * 256)) e
