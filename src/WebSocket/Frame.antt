-- ===== src/WebSocket/Frame.antt =====
-- src/http/websocket/WebSocketFrame.h: the frame header and its parser and serializer.
-- A buffer is a list of bytes; what the source reads at `p + offset` is the list that is left.
use Prim.Native.Nat.{bit_and, bit_or}
use aegon.Base.{
  ℕ, ◌+◌, ◌^◌, Bool, not, ◌&&◌, ◌||◌, [], ◌∷◌, ltb, leb, ◌==◌, if◌then◌else◌, length, take, drop,
}
use aegon.WebSocket.Opcode.{has_bit, is_control_opcode, is_valid_op}
use aegon.Base.Bytes.{Bytes, be_value, be_bytes}

pub record FrameHeader : Type 0 where
  pub fin : Bool
  pub rsv1 : Bool
  pub rsv2 : Bool
  pub rsv3 : Bool
  pub opcode : ℕ
  pub masked : Bool
  pub mask_key : ℕ
  pub payload_len : ℕ
  pub header_len : ℕ

pub data FrameParseResult : Type 0 where
  complete need_more_data protocol_error : FrameParseResult

-- From "Control frames payload MUST be 125 bytes or less" to the end. The key is the word that
-- `memcpy` loads from its four bytes; it is kept as the number with the first byte highest.
unfoldable pub parse_mask : ℕ → Bytes → FrameHeader → FrameParseResult × FrameHeader
unfolding is_control_opcode
parse_mask offset rest out =
    if is_control_opcode out.opcode && ltb 125 out.payload_len
    then (protocol_error, out)
    else if out.masked
    then (if ltb (length rest) 4 then (need_more_data, out) else (
      complete,
      record out { mask_key = be_value 0 (take 4 rest); header_len = offset + 4 },
    ))
    else (complete, record out { mask_key = 0; header_len = offset })

-- The three forms of the length. `rest` is what follows the first two bytes.
unfoldable pub parse_length : ℕ → Bytes → FrameHeader → FrameParseResult × FrameHeader
parse_length len_code rest out =
    if ltb len_code 126
    then parse_mask 2 rest (record out { payload_len = len_code })
    else if len_code == 126
    then (if ltb (length rest) 2
        then (need_more_data, out)
        else (let len = be_value 0 (take 2 rest) in
            if ltb len 126
            then (protocol_error, record out { payload_len = len })
            else parse_mask 4 (drop 2 rest) (record out { payload_len = len })))
    else if ltb (length rest) 8
    then (need_more_data, out)
    else (let h_len = be_value 0 (take 8 rest) in
        if has_bit h_len (2 ^ 63) || ltb h_len 65536
        then (protocol_error, out)
        else parse_mask 10 (drop 8 rest) (record out { payload_len = h_len }))

-- The out-parameter comes back beside the result, as far as it was written.
unfoldable pub parse_frame_header : Bytes → FrameHeader → FrameParseResult × FrameHeader
unfolding is_control_opcode is_valid_op
parse_frame_header (b0 ∷ b1 ∷ rest) out =
    let out' : FrameHeader = record out {
      fin = has_bit b0 0x80;
      rsv1 = has_bit b0 0x40;
      rsv2 = has_bit b0 0x20;
      rsv3 = has_bit b0 0x10;
      opcode = bit_and b0 0x0f;
      masked = has_bit b1 0x80;
    } in
    if not (is_valid_op out'.opcode)
    then (protocol_error, out')
    else if out'.rsv1 || (out'.rsv2 || out'.rsv3)
    then (protocol_error, out')
    else if is_control_opcode out'.opcode && not out'.fin
    then (protocol_error, out')
    else parse_length (bit_and b1 0x7f) rest out'
parse_frame_header _ out = (need_more_data, out)

-- The bytes written to `out_buf`; their number is what the source returns.
unfoldable pub serialize_frame_header : ℕ → ℕ → Bool → Bytes
serialize_frame_header op payload_len fin =
    let b0 = bit_or (if fin then 0x80 else 0x00) (bit_and op 0x0f) in
    if ltb payload_len 126
    then b0 ∷ payload_len ∷ []
    else if leb payload_len 0xffff
    then b0 ∷ 126 ∷ be_bytes 2 payload_len
    else b0 ∷ 127 ∷ be_bytes 8 payload_len
