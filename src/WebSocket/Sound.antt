-- ===== src/WebSocket/Sound.antt =====
-- src/http/websocket/WebSocketFrame.h: the headers that `parse_frame_header` accepts.
use Prim.Native.Nat.{bit_and}
use aegon.Base.{
  ℕ, ◌+◌, ◌≤◌, ◌<◌, ◌≡◌, ◌^◌, ◌==◌, ◌||◌, ◌∙◌, leb, Bool, ap, true, false, [], ◌∷◌, arith, ltb,
  length, if◌then◌else◌, length-take, take, drop, All, All-take, length-drop,
}
use aegon.Base.Bits.{and_bit, and_low}
use aegon.Base.Bytes.{Bytes, IsByte, be_value, be_value-lt}
use aegon.WebSocket.Opcode.{has_bit, is_control_opcode, is_valid_op}
use aegon.WebSocket.Frame.{FrameHeader, complete, parse_mask, parse_length, parse_frame_header}

-- The bytes before a mask key, in the shortest of the three forms.
abbrev pub shortest_form : ℕ → ℕ
shortest_form len = if ltb len 126 then 2 else if ltb len 0x10000 then 4 else 10

-- The six opcodes of section 5.2 of RFC 6455.
abbrev pub rfc_opcode : ℕ → Bool
rfc_opcode op = op == 0 || (op == 1 || (op == 2 || (op == 8 || (op == 9 || op == 10))))

-- A header of that section that stands at the front of `buf`. The reserved bits of the first byte
-- are clear, so that it is the final bit and the opcode; the control frames are those from 8 on.
pub record IsRfcHeader (buf : Bytes) (h : FrameHeader) : Type 0 where
  pub rest : Bytes
  pub first : buf ≡ ((if h.fin then 128 else 0) + h.opcode) ∷ rest
  pub known : rfc_opcode h.opcode ≡ true
  pub reserved : (h.rsv1 ≡ false) × (h.rsv2 ≡ false) × (h.rsv3 ≡ false)
  pub control : 8 ≤ h.opcode → (h.fin ≡ true) × (h.payload_len ≤ 125)
  pub top_bit : h.payload_len < 2 ^ 63
  pub minimal : h.header_len ≡ shortest_form h.payload_len + (if h.masked then 4 else 0)

parse_mask_sound :
    (offset : ℕ) (rest : Bytes) (out h : FrameHeader)
    → parse_mask offset rest out ≡ (complete, h)
    → (is_control_opcode out.opcode ≡ true → out.payload_len ≤ 125)
      × (h.payload_len ≡ out.payload_len)
      × (h.fin ≡ out.fin)
      × (h.opcode ≡ out.opcode)
      × (h.rsv1 ≡ out.rsv1)
      × (h.rsv2 ≡ out.rsv2)
      × (h.rsv3 ≡ out.rsv3)
      × (h.header_len ≡ offset + (if h.masked then 4 else 0))
      × (h.header_len ≤ offset + length rest)
unfolding parse_mask
parse_mask_sound offset rest out h e = ground arith

module _ (rest : Bytes) (bytes : All IsByte rest) (n : ℕ) (h : n ≤ length rest) where
  word_lt : be_value 0 (take n rest) < 256 ^ n
  word_lt =
      let e : length (take n rest) ≡ n = omega (arith, length-take n rest) in
      let lt = be_value-lt 0 (take n rest) (All-take IsByte n rest bytes) in
      omega (arith, lt, ap (λ (k : ℕ). 256 ^ k) e)

parse_length_sound :
    (len_code : ℕ) (rest : Bytes) (out h : FrameHeader)
    → All IsByte rest
    → len_code < 128
    → parse_length len_code rest out ≡ (complete, h)
    → (is_control_opcode out.opcode ≡ true → h.payload_len ≤ 125)
      × (h.payload_len < 2 ^ 63)
      × (h.fin ≡ out.fin)
      × (h.opcode ≡ out.opcode)
      × (h.rsv1 ≡ out.rsv1)
      × (h.rsv2 ≡ out.rsv2)
      × (h.rsv3 ≡ out.rsv3)
      × (h.header_len ≡ shortest_form h.payload_len + (if h.masked then 4 else 0))
      × (h.header_len ≤ 2 + length rest)
unfolding parse_length
parse_length_sound len_code rest out h bytes small e = ground (
  arith,
  length-drop 2 rest,
  length-drop 8 rest,
  word_lt rest bytes 2,
  word_lt rest bytes 8,
  and_bit 63 (be_value 0 (take 8 rest)),
  parse_mask_sound 2 rest (record out { payload_len = len_code }) h,
  parse_mask_sound 4 (drop 2 rest) (record out { payload_len = be_value 0 (take 2 rest) }) h,
  parse_mask_sound 10 (drop 8 rest) (record out { payload_len = be_value 0 (take 8 rest) }) h,
)

is_control_opcode_lem : (op : ℕ) → op < 16 → is_control_opcode op ≡ leb 8 op
unfolding is_control_opcode
is_control_opcode_lem op h = ground (arith, and_bit 3 op)

-- The first byte, from the fields read out of it.
first_byte_lem :
    (b : ℕ)
    → IsByte b
    → has_bit b 0x40 ≡ false
    → has_bit b 0x20 ≡ false
    → has_bit b 0x10 ≡ false
    → b ≡ (if has_bit b 0x80 then 128 else 0) + bit_and b 0x0f
first_byte_lem b h e1 e2 e3 =
    ground (arith, and_bit 7 b, and_bit 6 b, and_bit 5 b, and_bit 4 b, and_low 4 b)

-- The fields that the first two bytes give.
abbrev first_fields : ℕ → ℕ → FrameHeader → FrameHeader
first_fields b0 b1 out = record out {
  fin = has_bit b0 0x80;
  rsv1 = has_bit b0 0x40;
  rsv2 = has_bit b0 0x20;
  rsv3 = has_bit b0 0x10;
  opcode = bit_and b0 0x0f;
  masked = has_bit b1 0x80;
}

parse_frame_header_passes :
    (b0 b1 : ℕ) (rest : Bytes) (out h : FrameHeader)
    → parse_frame_header (b0 ∷ b1 ∷ rest) out ≡ (complete, h)
    → (rfc_opcode (bit_and b0 0x0f) ≡ true)
      × (has_bit b0 0x40 ≡ false)
      × (has_bit b0 0x20 ≡ false)
      × (has_bit b0 0x10 ≡ false)
      × (is_control_opcode (bit_and b0 0x0f) ≡ true → has_bit b0 0x80 ≡ true)
      × (parse_length (bit_and b1 0x7f) rest (first_fields b0 b1 out) ≡ (complete, h))
unfolding parse_frame_header is_valid_op
parse_frame_header_passes b0 b1 rest out h e = ground arith

-- A header that `parse_frame_header` accepts is one of section 5.2 of RFC 6455: its first byte is the
-- final bit and one of the opcodes 0, 1, 2, 8, 9 and 10, with no reserved bit; its length is below
-- 2 ^ 63 and in the shortest form; and from opcode 8 on it has the final bit and at most 125 bytes of
-- payload. It lies within the buffer.
pub parse_frame_header-IsRfcHeader :
    (buf : Bytes) (out h : FrameHeader)
    → All IsByte buf
    → parse_frame_header buf out ≡ (complete, h)
    → IsRfcHeader buf h × (h.header_len ≤ length buf)
unfolding parse_frame_header is_valid_op
parse_frame_header-IsRfcHeader [] out h bytes e = cc
parse_frame_header-IsRfcHeader (b0 ∷ []) out h bytes e = cc
parse_frame_header-IsRfcHeader (b0 ∷ b1 ∷ rest) out h (byte, (_, bytes)) e =
    let low : bit_and b0 0x0f < 16 = omega (arith, and_low 4 b0) in
    let kind = is_control_opcode_lem (bit_and b0 0x0f) low in
    let (known, r1, r2, r3, final, e') = parse_frame_header_passes b0 b1 rest out h e in
    let (small, top, f, op, f1, f2, f3, shortest, within) =
      parse_length_sound (bit_and b1 0x7f) rest (first_fields b0 b1 out) h bytes
        (omega (arith, and_low 7 b1)) e' in
    (
      record {
        rest = b1 ∷ rest;
        first = rw (f, op) (ap (λ b. b ∷ b1 ∷ rest) (first_byte_lem b0 byte r1 r2 r3));
        known = rw op known;
        reserved = (f1 ∙ r1, f2 ∙ r2, f3 ∙ r3);
        control = λ c.
            let k : is_control_opcode (bit_and b0 0x0f) ≡ true = ground (arith, kind, op, c) in
            (f ∙ final k, small k);
        top_bit = top;
        minimal = shortest;
      },
      omega (arith, within),
    )
