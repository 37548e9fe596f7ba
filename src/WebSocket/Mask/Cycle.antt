-- ===== src/WebSocket/Mask/Cycle.antt =====
-- src/http/websocket/WebSocketFrame.h: unmasking one byte at a time, byte i with key byte i mod 4.
use Prim.Native.Nat.{bit_xor}
use aegon.Base.{ℕ, suc, ◌+◌, ◌%◌, ◌≡◌, refl, ap, [], ◌∷◌, ◌++◌, arith, length, get_or}
use aegon.Base.Bits.{xor_cancel}
use aegon.Base.Bytes.{Bytes}

abbrev pub cycle : ℕ → Bytes → Bytes → Bytes
cycle i key [] = []
cycle i key (b ∷ bs) = bit_xor b (get_or key (i % 4) 0) ∷ cycle (i + 1) key bs

pub cycle_period : (i j : ℕ) (key xs : Bytes) → i % 4 ≡ j % 4 → cycle i key xs ≡ cycle j key xs
cycle_period i j key [] h = refl
cycle_period i j key (b ∷ bs) h = rw (h, cycle_period (i + 1) (j + 1) key bs (omega arith))

pub cycle-append :
    (i : ℕ) (key xs ys : Bytes)
    → cycle i key (xs ++ ys) ≡ cycle i key xs ++ cycle (i + length xs) key ys
cycle-append i key [] ys = ap (λ (n : ℕ). cycle n key ys) (omega arith)
cycle-append i key (x ∷ xs) ys =
    let e : i + 1 + length xs ≡ i + suc (length xs) = omega arith in
    rw (cycle-append (i + 1) key xs ys, e)

pub length-cycle : (i : ℕ) (key xs : Bytes) → length (cycle i key xs) ≡ length xs
length-cycle i key [] = refl
length-cycle i key (x ∷ xs) = ap suc (length-cycle (i + 1) key xs)

pub cycle_cancel : (i : ℕ) (key xs : Bytes) → cycle i key (cycle i key xs) ≡ xs
cycle_cancel i key [] = refl
cycle_cancel i key (x ∷ xs) = rw (xor_cancel x (get_or key (i % 4) 0), cycle_cancel (i + 1) key xs)
