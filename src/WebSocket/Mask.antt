-- ===== src/WebSocket/Mask.antt =====
-- src/http/websocket/WebSocketFrame.h: `unmask_payload_inplace`, tier by tier. The array is what is
-- done and what is left, so that the index `i` is the length of the first.
pub mod Stages
pub mod Cycle
use Prim.Native.Nat.{bit_and, bit_xor}
use aegon.Base.{
  ℕ, zero, suc, ◌+◌, ◌/◌, Bool, true, false, ◌&&◌, ◌||◌, [], ◌∷◌, ◌++◌, leb, ◌==◌, if◌then◌else◌,
  length, get_or, take, drop,
}
use aegon.Base.Bytes.{Bytes, be_bytes}

-- What the compiler was told to target. NEON takes the same steps as SSE2.
pub record Target : Type 0 where
  pub avx2 : Bool
  pub sse2 : Bool

-- A vector `xor` works lane by lane, as the `xor` of two words does on their bytes.
unfoldable pub xor_lanes : Bytes → Bytes → Bytes
xor_lanes (b ∷ bs) (k ∷ ks) = bit_xor b k ∷ xor_lanes bs ks
xor_lanes [] _ = []
xor_lanes _ [] = []

-- `set1_epi32` and the 64-bit mask: copies of the four key bytes.
unfoldable pub repeat_key : ℕ → Bytes → Bytes
repeat_key zero key = []
repeat_key (suc n) key = key ++ repeat_key n key

-- `for (; i < limit; i += width)`, with `rounds` chunks to go.
unfoldable pub xor_chunks : ℕ → ℕ → Bytes → Bytes → Bytes → Bytes × Bytes
xor_chunks zero width mask done rest = (done, rest)
xor_chunks (suc rounds) width mask done rest =
    xor_chunks rounds width mask (done ++ xor_lanes (take width rest) mask) (drop width rest)

-- One tier: the chunks of 4 * `words` bytes that are left. The limit of the source, `len - i` with
-- its low bits cleared, is that many whole chunks.
unfoldable pub tier : ℕ → ℕ → Bytes → Bytes × Bytes → Bytes × Bytes
tier words width key (done, rest) =
    if leb width (length rest)
    then xor_chunks (length rest / width) width (repeat_key words key) done rest
    else (done, rest)

-- Tier 4 is no loop.
unfoldable pub tier_word : Bytes → Bytes × Bytes → Bytes × Bytes
tier_word key (done, rest) =
    if leb 4 (length rest) then (done ++ xor_lanes (take 4 rest) key, drop 4 rest) else (done, rest)

-- Tier 5: `data[i] ^= k[i & 3]`.
unfoldable pub tail_bytes : ℕ → Bytes → Bytes → Bytes
tail_bytes i key [] = []
tail_bytes i key (b ∷ bs) = bit_xor b (get_or key (bit_and i 3) 0) ∷ tail_bytes (i + 1) key bs

unfoldable pub tail : Bytes → Bytes × Bytes → Bytes
unfolding tail_bytes
tail key (done, rest) = done ++ tail_bytes (length done) key rest

unfoldable pub unmask_payload_inplace : Target → Bytes → ℕ → Bytes
unmask_payload_inplace t bytes mask_key =
    if length bytes == 0 || mask_key == 0
    then bytes
    else (let k = be_bytes 4 mask_key in
        let s0 : Bytes × Bytes = ([], bytes) in
        let s1 = if t.avx2 then tier 8 32 k s0 else s0 in
        let s2 = if t.sse2 then tier 4 16 k s1 else s1 in tail k (tier_word k (tier 2 8 k s2)))
