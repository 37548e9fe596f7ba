-- ===== src/WebSocket/Mask/Stages.antt =====
-- src/http/websocket/WebSocketFrame.h: the tiers of unmasking beside the byte-by-byte one.
use mathlib.Core.List.{append_assoc}
use aegon.Base.{
  ℕ, zero, suc, ◌+◌, ◌*◌, ◌/◌, ◌%◌, ◌≤◌, ◌≡◌, refl, ap, ◌∙◌, sym, Bool, true, false, [], ◌∷◌, ◌++◌,
  arith, length, ◌^◌, get_or, take, drop, length-append, length-take, length-drop, take-append-drop,
  Bool-cases, inl, inr, leb, ◌==◌, if◌then◌else◌,
}
use native.Mathlib.Nat.{div-mul-le_self}
use aegon.Base.Bits.{and_low, xor_zero_right}
use native.Mathlib.Decide.{ℕ_discrete}
use aegon.Base.Bytes.{Bytes, be_bytes}
use aegon.WebSocket.Mask.Cycle.{cycle, cycle_period, cycle-append, length-cycle, cycle_cancel}
use aegon.WebSocket.Mask.{
  Target, xor_lanes, repeat_key, xor_chunks, tier, tier_word, tail_bytes, tail,
  unmask_payload_inplace,
}

module _ (k0 k1 k2 k3 : ℕ) where
  abbrev key : Bytes
  key = k0 ∷ k1 ∷ k2 ∷ k3 ∷ []

  lanes-cycle :
      (words : ℕ) (xs : Bytes)
      → length xs ≡ 4 * words
      → xor_lanes xs (repeat_key words key) ≡ cycle 0 key xs
  unfolding xor_lanes repeat_key
  lanes-cycle zero [] h = refl
  lanes-cycle zero (a ∷ xs) h = absurd (omega arith)
  lanes-cycle (suc n) [] h = absurd (omega arith)
  lanes-cycle (suc n) (a ∷ []) h = absurd (omega arith)
  lanes-cycle (suc n) (a ∷ b ∷ []) h = absurd (omega arith)
  lanes-cycle (suc n) (a ∷ b ∷ c ∷ []) h = absurd (omega arith)
  lanes-cycle (suc n) (a ∷ b ∷ c ∷ d ∷ xs) h =
      rw (lanes-cycle n xs (omega arith), cycle_period 4 0 key xs refl)

  -- What is done so far, on the way to the whole result.
  record IsPartial (all : Bytes) (s : Bytes × Bytes) : Type 0 where
    aligned : length s.0 % 4 ≡ 0
    result : s.0 ++ cycle (length s.0) key s.1 ≡ cycle 0 key all

  chunk-IsPartial :
      (all done rest : Bytes) (words : ℕ)
      → 4 * words ≤ length rest
      → IsPartial all (done, rest)
      → IsPartial all
          (done ++ xor_lanes (take (4 * words) rest) (repeat_key words key), drop (4 * words) rest)
  chunk-IsPartial all done rest words h p =
      let n : ℕ = 4 * words in
      let front : Bytes = take n rest in
      let len : length front ≡ n = omega (arith, length-take n rest) in
      let k : ℕ = length done in
      let e : xor_lanes front (repeat_key words key) ≡ cycle k key front =
        lanes-cycle words front len ∙ cycle_period 0 k key front (sym p.aligned) in
      let e' : cycle k key rest ≡ cycle k key front ++ cycle (k + n) key (drop n rest) =
        ap (cycle k key) (sym (take-append-drop n rest))
        ∙ cycle-append k key front (drop n rest)
        ∙ ap (λ (m : ℕ). cycle k key front ++ cycle (k + m) key (drop n rest)) len in
      let grown : length (done ++ cycle k key front) ≡ k + n =
        omega (arith, length-append done (cycle k key front), length-cycle k key front) in
      rw e (record {
        aligned = rw grown (omega (arith, p.aligned));
        result = rw (grown, append_assoc, ← e') p.result;
      })

  xor_chunks-IsPartial :
      (all : Bytes) (words rounds : ℕ) (done rest : Bytes)
      → rounds * (4 * words) ≤ length rest
      → IsPartial all (done, rest)
      → IsPartial all (xor_chunks rounds (4 * words) (repeat_key words key) done rest)
  unfolding xor_chunks
  xor_chunks-IsPartial all words zero done rest h p = p
  xor_chunks-IsPartial all words (suc rounds) done rest h p =
      let room : 4 * words + rounds * (4 * words) ≤ length rest = omega (arith, h) in
      xor_chunks-IsPartial all words rounds _ (drop (4 * words) rest)
        (omega (arith, length-drop (4 * words) rest, room))
        (chunk-IsPartial all done rest words (omega (arith, room)) p)

  tier-IsPartial :
      (all : Bytes) (words : ℕ) (s : Bytes × Bytes)
      → IsPartial all s
      → IsPartial all (tier words (4 * words) key s)
  unfolding tier
  tier-IsPartial all words (done, rest) p = elim (Bool-cases (leb (4 * words) (length rest))) [
    | inl e ↦ rw e (
        xor_chunks-IsPartial all words (length rest / (4 * words)) done rest
          (div-mul-le_self (length rest) (4 * words)) p)
    | inr e ↦ rw e p
  ]

  tier_word-IsPartial :
      (all : Bytes) (s : Bytes × Bytes) → IsPartial all s → IsPartial all (tier_word key s)
  unfolding tier_word
  tier_word-IsPartial all (done, rest) p = elim (Bool-cases (leb 4 (length rest))) [
    | inl e ↦ rw e (unfold repeat_key in chunk-IsPartial all done rest 1 (ground arith) p)
    | inr e ↦ rw e p
  ]

  tail_bytes-cycle : (i : ℕ) (xs : Bytes) → tail_bytes i key xs ≡ cycle i key xs
  unfolding tail_bytes
  tail_bytes-cycle i [] = refl
  tail_bytes-cycle i (x ∷ xs) = rw (and_low 2 i, tail_bytes-cycle (i + 1) xs)

  tail-eq : (all : Bytes) (s : Bytes × Bytes) → IsPartial all s → tail key s ≡ cycle 0 key all
  unfolding tail
  tail-eq all (done, rest) p = rw tail_bytes-cycle p.result

  if-IsPartial :
      (all : Bytes) (b : Bool) (words : ℕ) (s : Bytes × Bytes)
      → IsPartial all s
      → IsPartial all (if b then tier words (4 * words) key s else s)
  if-IsPartial all true words s p = tier-IsPartial all words s p
  if-IsPartial all false words s p = p

-- A key word of 0 has four key bytes 0, which change nothing.
zero_key : (i : ℕ) → get_or (be_bytes 4 0) i 0 ≡ 0
zero_key zero = refl
zero_key (suc zero) = refl
zero_key (suc (suc zero)) = refl
zero_key (suc (suc (suc zero))) = refl
zero_key (suc (suc (suc (suc i)))) = refl

cycle_zero : (i : ℕ) (xs : Bytes) → cycle i (be_bytes 4 0) xs ≡ xs
cycle_zero i [] = refl
cycle_zero i (x ∷ xs) = rw (zero_key (i % 4), xor_zero_right x, cycle_zero (i + 1) xs)

unmask_payload_inplace-cycle :
    (t : Target) (xs : Bytes) (mask_key : ℕ)
    → unmask_payload_inplace t xs mask_key ≡ cycle 0 (be_bytes 4 mask_key) xs
unfolding unmask_payload_inplace
unmask_payload_inplace-cycle t [] mask_key = refl
unmask_payload_inplace-cycle t (x ∷ xs) mask_key = elim (ℕ_discrete mask_key 0) [
  | yes e ↦ rw (nonempty, e) (sym (cycle_zero 0 (x ∷ xs)))
  | no ne ↦
      let nonzero : (mask_key == 0) ≡ false = ground arith in
      rw (nonempty, nonzero) (tail-eq k0 k1 k2 k3 all _ stages)
]
  where
    nonempty : (length (x ∷ xs) == 0) ≡ false
    nonempty = ground arith

    all : Bytes
    all = x ∷ xs

    k0 : ℕ
    k0 = mask_key / 256 ^ 3 % 256

    k1 : ℕ
    k1 = mask_key / 256 ^ 2 % 256

    k2 : ℕ
    k2 = mask_key / 256 ^ 1 % 256

    k3 : ℕ
    k3 = mask_key / 256 ^ 0 % 256

    stages : IsPartial k0 k1 k2 k3 all (
        tier_word (be_bytes 4 mask_key) (
          tier 2 8 (be_bytes 4 mask_key) (
            if t.sse2
            then tier 4 16
                (be_bytes 4 mask_key)
                (if t.avx2 then tier 8 32 (be_bytes 4 mask_key) ([], all) else ([], all))
            else (if t.avx2 then tier 8 32 (be_bytes 4 mask_key) ([], all) else ([], all)))))
    stages = tier_word-IsPartial k0 k1 k2 k3 all _ (
        tier-IsPartial k0 k1 k2 k3 all 2 _ (
          if-IsPartial k0 k1 k2 k3 all t.sse2 4 _ (
            if-IsPartial k0 k1 k2 k3 all t.avx2 8 ([], all)
              (record { aligned = refl; result = refl }))))

unmask_payload_inplace_cancel :
    (t u : Target) (xs : Bytes) (mask_key : ℕ)
    → unmask_payload_inplace u (unmask_payload_inplace t xs mask_key) mask_key ≡ xs
unmask_payload_inplace_cancel t u xs mask_key =
    rw (unmask_payload_inplace-cycle t xs mask_key, unmask_payload_inplace-cycle u)
      (cycle_cancel 0 (be_bytes 4 mask_key) xs)

-- On every target, whatever the length, unmasking combines byte i with key byte i mod 4. Unmasking
-- twice with one key gives the payload back, also when the two builds differ.
pub unmask_payload_inplace_lem :
    (t u : Target) (xs : Bytes) (mask_key : ℕ)
    → (unmask_payload_inplace t xs mask_key ≡ cycle 0 (be_bytes 4 mask_key) xs)
      × (unmask_payload_inplace u (unmask_payload_inplace t xs mask_key) mask_key ≡ xs)
unmask_payload_inplace_lem t u xs mask_key =
    (unmask_payload_inplace-cycle t xs mask_key, unmask_payload_inplace_cancel t u xs mask_key)
