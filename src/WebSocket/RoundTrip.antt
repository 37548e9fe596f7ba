-- ===== src/WebSocket/RoundTrip.antt =====
-- src/http/websocket/WebSocketFrame.h: the header's serializer and then its parser.
use Prim.Native.Nat.{bit_and, bit_or}
use aegon.Base.{
  ℕ, ◌^◌, ◌≤◌, ◌<◌, ◌≡◌, refl, Bool, true, false, not, ◌&&◌, ◌∷◌, ◌++◌, arith, ◌==◌, if◌then◌else◌,
  length, passes_below, passes_below_lem, lt→ltb, le→ltb, le→leb, lt→leb,
}
use native.Mathlib.Decide.{dec_lt}
use aegon.Base.Bits.{and_bit, and_low}
use aegon.Base.Bytes.{Bytes, be_value, be_bytes, be_value-be_bytes}
use aegon.WebSocket.Opcode.{has_bit, is_control_opcode, is_valid_op}
use aegon.WebSocket.Frame.{
  FrameHeader, complete, protocol_error, parse_mask, parse_length, parse_frame_header,
  serialize_frame_header,
}

abbrev first_byte : Bool → ℕ → ℕ
first_byte fin op = bit_or (if fin then 0x80 else 0x00) (bit_and op 0x0f)

abbrev same : Bool → Bool → Bool
same true b = b
same false b = not b

abbrev byte_fits : Bool → ℕ → Bool
byte_fits fin op =
    let b0 = first_byte fin op in
    same fin (has_bit b0 0x80)
    && (not (has_bit b0 0x40)
        && (not (has_bit b0 0x20) && (not (has_bit b0 0x10) && (bit_and b0 0x0f == op))))

byte_fits_table : (fin : Bool) → passes_below (byte_fits fin) 16 ≡ true
unfolding passes_below
byte_fits_table true = refl
byte_fits_table false = refl

first_byte_fields :
    (fin : Bool) (op : ℕ)
    → op < 16
    → (has_bit (first_byte fin op) 0x80 ≡ fin)
      × (has_bit (first_byte fin op) 0x40 ≡ false)
      × (has_bit (first_byte fin op) 0x20 ≡ false)
      × (has_bit (first_byte fin op) 0x10 ≡ false)
      × (bit_and (first_byte fin op) 0x0f ≡ op)
first_byte_fields true op h =
    let t = passes_below_lem _ 16 op h (byte_fits_table true) in ground arith
first_byte_fields false op h =
    let t = passes_below_lem _ 16 op h (byte_fits_table false) in ground arith

is_valid_op-lt : (op : ℕ) → is_valid_op op ≡ true → op < 16
unfolding is_valid_op
is_valid_op-lt op h = ground arith

short_byte : (len : ℕ) → len < 126 → (has_bit len 0x80 ≡ false) × (bit_and len 0x7f ≡ len)
short_byte len h = (ground (arith, and_bit 7 len), omega (arith, and_low 7 len))

-- The header that a parse of a serialized header leaves behind, of `n` bytes.
abbrev pub server_header : ℕ → ℕ → Bool → ℕ → FrameHeader
server_header op len fin n = record {
  fin = fin;
  rsv1 = false;
  rsv2 = false;
  rsv3 = false;
  opcode = op;
  masked = false;
  mask_key = 0;
  payload_len = len;
  header_len = n;
}

-- `server_header` before the length is read.
abbrev early_header : ℕ → Bool → FrameHeader → FrameHeader
early_header op fin out = record (server_header op out.payload_len fin out.header_len) {
  mask_key = out.mask_key;
}

-- The checks on the first two bytes all pass.
parse_after_first_byte :
    (fin : Bool) (op b1 : ℕ) (rest : Bytes) (out : FrameHeader)
    → is_valid_op op ≡ true
    → (is_control_opcode op ≡ true → fin ≡ true)
    → has_bit b1 0x80 ≡ false
    → parse_frame_header (first_byte fin op ∷ b1 ∷ rest) out
      ≡ parse_length (bit_and b1 0x7f) rest (early_header op fin out)
unfolding parse_frame_header
parse_after_first_byte fin op b1 rest out valid control unmasked =
    let (e0, e1, e2, e3, e4) = first_byte_fields fin op (is_valid_op-lt op valid) in
    simp (e0, e1, e2, e3, e4, valid, unmasked) (final (is_control_opcode op) refl)
  where
    final :
        (c : Bool)
        → is_control_opcode op ≡ c
        → (if is_control_opcode op && not fin
            then (protocol_error, early_header op fin out)
            else parse_length (bit_and b1 0x7f) rest (early_header op fin out))
          ≡ parse_length (bit_and b1 0x7f) rest (early_header op fin out)
    final true e = rw (e, control e)
    final false e = rw e

module _ (op len : ℕ) (fin : Bool) (rest : Bytes) (out : FrameHeader)
    (control : is_control_opcode op ≡ true → (fin ≡ true) × (len ≤ 125)) where
  unmasked_header :
      (n : ℕ)
      → parse_mask n rest (record (early_header op fin out) { payload_len = len })
        ≡ (complete, server_header op len fin n)
  unfolding parse_mask
  unmasked_header n = ground arith

  parse_length_short :
      len < 126
      → parse_length len rest (early_header op fin out) ≡ (complete, server_header op len fin 2)
  unfolding parse_length
  parse_length_short h = ground (arith, unmasked_header 2)

  parse_length_16 :
      126 ≤ len
      → len ≤ 0xffff
      → parse_length 126 (be_bytes 2 len ++ rest) (early_header op fin out)
        ≡ (complete, server_header op len fin 4)
  unfolding parse_length
  parse_length_16 h k =
      let e : be_value 0 (be_bytes 2 len) ≡ len = omega (arith, be_value-be_bytes 2 0 len) in
      rw e (ground (arith, unmasked_header 4))

  parse_length_64 :
      0xffff < len
      → len < 2 ^ 63
      → parse_length 127 (be_bytes 8 len ++ rest) (early_header op fin out)
        ≡ (complete, server_header op len fin 10)
  unfolding parse_length
  parse_length_64 h k =
      let e : be_value 0 (be_bytes 8 len) ≡ len = omega (arith, be_value-be_bytes 8 0 len) in
      rw e (ground (arith, and_bit 63 len, unmasked_header 10))

-- A header that `serialize_frame_header` wrote is read back field for field, whatever follows it,
-- for each of the six opcodes and each length below 2 ^ 63, if a control frame is final and has at
-- most 125 bytes.
pub parse_frame_header-serialize_frame_header :
    (op len : ℕ) (fin : Bool) (rest : Bytes) (out : FrameHeader)
    → is_valid_op op ≡ true
    → len < 2 ^ 63
    → (is_control_opcode op ≡ true → (fin ≡ true) × (len ≤ 125))
    → parse_frame_header (serialize_frame_header op len fin ++ rest) out
      ≡ (complete, server_header op len fin (length (serialize_frame_header op len fin)))
unfolding serialize_frame_header
parse_frame_header-serialize_frame_header op len fin rest out valid small control =
    let final : is_control_opcode op ≡ true → fin ≡ true = λ c. (control c).0 in
    elim (dec_lt len 126) [
      | yes h ↦
          let (u, l) = short_byte len h in
          rw (lt→ltb len 126 h, parse_after_first_byte fin op len rest out valid final u, l)
            (parse_length_short op len fin rest out control h)
      | no h ↦ elim (dec_lt 0xffff len) [
        | yes k ↦
            rw
              (
                le→ltb len 126 (omega arith),
                lt→leb len 0xffff k,
                parse_after_first_byte fin op 127 (be_bytes 8 len ++ rest) out valid final refl,
              )
              (parse_length_64 op len fin rest out control k small)
        | no k ↦
            rw
              (
                le→ltb len 126 (omega arith),
                le→leb len 0xffff (omega arith),
                parse_after_first_byte fin op 126 (be_bytes 2 len ++ rest) out valid final refl,
              )
              (parse_length_16 op len fin rest out control (omega arith) (omega arith))
      ]
    ]
