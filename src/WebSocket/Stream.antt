-- ===== src/WebSocket/Stream.antt =====
-- src/http/websocket/WebSocketFrame.h: `parse_frame_header` on a buffer that is still filling.
use Prim.Native.Nat.{bit_and}
use aegon.WebSocket.Opcode.{has_bit}
use aegon.WebSocket.Sound.{parse_frame_header-IsRfcHeader}
use aegon.Base.{
  ℕ, ◌<◌, ◌≡◌, ◌≢◌, refl, [], ◌∷◌, ◌++◌, arith, length, length-append, take, drop, take-append_le,
  drop-append_le, inl, inr, ◌⊎◌, sym, ◌∙◌, All,
}
use aegon.Base.Bytes.{Bytes, IsByte, be_value}
use aegon.WebSocket.Frame.{
  FrameHeader, FrameParseResult, complete, need_more_data, protocol_error, parse_mask, parse_length,
  parse_frame_header,
}

module _ (more : Bytes) where
  parse_mask_keeps :
      (offset : ℕ) (rest : Bytes) (out : FrameHeader)
      → (parse_mask offset rest out).0 ≢ need_more_data
      → parse_mask offset (rest ++ more) out ≡ parse_mask offset rest out
  unfolding parse_mask
  parse_mask_keeps offset rest out h =
      ground (arith, length-append rest more, take-append_le 4 rest more)

  parse_length_keeps :
      (len_code : ℕ) (rest : Bytes) (out : FrameHeader)
      → (parse_length len_code rest out).0 ≢ need_more_data
      → parse_length len_code (rest ++ more) out ≡ parse_length len_code rest out
  unfolding parse_length
  parse_length_keeps len_code rest out h = ground (
    arith,
    length-append rest more,
    take-append_le 2 rest more,
    drop-append_le 2 rest more,
    take-append_le 8 rest more,
    drop-append_le 8 rest more,
    parse_mask_keeps 2 rest (record out { payload_len = len_code }),
    parse_mask_keeps 4 (drop 2 rest) (record out { payload_len = be_value 0 (take 2 rest) }),
    parse_mask_keeps 10 (drop 8 rest) (record out { payload_len = be_value 0 (take 8 rest) }),
  )

  -- A decision, for or against the header, does not change when more bytes arrive.
  pub parse_frame_header_keeps :
      (buf : Bytes) (out : FrameHeader)
      → (parse_frame_header buf out).0 ≢ need_more_data
      → parse_frame_header (buf ++ more) out ≡ parse_frame_header buf out
  unfolding parse_frame_header
  parse_frame_header_keeps [] out h = absurd (h refl)
  parse_frame_header_keeps (b0 ∷ []) out h = absurd (h refl)
  parse_frame_header_keeps (b0 ∷ b1 ∷ rest) out h = ground (
    arith,
    parse_length_keeps (bit_and b1 0x7f) rest (record out {
      fin = has_bit b0 0x80;
      rsv1 = has_bit b0 0x40;
      rsv2 = has_bit b0 0x20;
      rsv3 = has_bit b0 0x10;
      opcode = bit_and b0 0x0f;
      masked = has_bit b1 0x80;
    }),
  )

FrameParseResult-cases :
    (r : FrameParseResult × FrameHeader) → (r.0 ≡ need_more_data) ⊎ (r.0 ≢ need_more_data)
FrameParseResult-cases (complete, h) = inr (λ e. cc)
FrameParseResult-cases (need_more_data, h) = inl refl
FrameParseResult-cases (protocol_error, h) = inr (λ e. cc)

-- A buffer that ends before a header which will be accepted asks for more data: it is never
-- refused early, and never accepted with part of it missing.
pub parse_frame_header_waits :
    (front back : Bytes) (out h : FrameHeader)
    → All IsByte front
    → parse_frame_header (front ++ back) out ≡ (complete, h)
    → length front < h.header_len
    → (parse_frame_header front out).0 ≡ need_more_data
parse_frame_header_waits front back out h bytes e short =
    elim (FrameParseResult-cases (parse_frame_header front out)) [
      | inl wait ↦ wait
      | inr decided ↦
          let whole : parse_frame_header front out ≡ (complete, h) =
            sym (parse_frame_header_keeps back front out decided) ∙ e in
          absurd (omega (arith, (parse_frame_header-IsRfcHeader front out h bytes whole).1))
    ]
