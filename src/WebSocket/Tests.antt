-- ===== src/WebSocket/Tests.antt =====
-- Runs of the frame parser, and its theorems at concrete frames.
use aegon.Base.{◌≤◌, ◌≡◌, refl, true, false, [], ◌∷◌, ◌++◌, arith, length}
use aegon.Base.Bytes.{Bytes}
use aegon.WebSocket.Opcode.{is_control_opcode, is_valid_op, is_valid_close_code}
use aegon.WebSocket.Frame.{
  FrameHeader, complete, need_more_data, protocol_error, parse_mask, parse_length,
  parse_frame_header, serialize_frame_header,
}
use aegon.WebSocket.RoundTrip.{server_header, parse_frame_header-serialize_frame_header}
use aegon.WebSocket.Sound.{IsRfcHeader, parse_frame_header-IsRfcHeader}
use aegon.WebSocket.Stream.{parse_frame_header_keeps, parse_frame_header_waits}
use aegon.WebSocket.Mask.{
  Target, xor_lanes, repeat_key, xor_chunks, tier, tier_word, tail, unmask_payload_inplace,
}
use aegon.WebSocket.Mask.Cycle.{cycle}
use aegon.WebSocket.Mask.Stages.{unmask_payload_inplace_lem}

abbrev blank : FrameHeader
blank = server_header 1 0 true 0

parse-serialize_example :
    parse_frame_header (serialize_frame_header 2 300 true ++ 7 ∷ []) blank
    ≡ (complete, server_header 2 300 true (length (serialize_frame_header 2 300 true)))
unfolding is_valid_op is_control_opcode
parse-serialize_example =
    parse_frame_header-serialize_frame_header 2 300 true (7 ∷ []) blank refl (omega arith) (λ c. cc)

-- A masked text frame of five bytes, from section 5.7 of the RFC.
abbrev masked_hello : Bytes
masked_hello = 0x81 ∷ 0x85 ∷ 0x37 ∷ 0xfa ∷ 0x21 ∷ 0x3d ∷ []

abbrev masked_header : FrameHeader
masked_header = record (server_header 1 5 true 6) { masked = true; mask_key = 0x37fa213d }

parse_masked : parse_frame_header masked_hello blank ≡ (complete, masked_header)
unfolding parse_frame_header parse_length parse_mask
parse_masked = refl

-- A fragmented ping, and a 16-bit length that would fit seven bits.
parse_refused :
    ((parse_frame_header (0x09 ∷ 0x00 ∷ []) blank).0 ≡ protocol_error)
    × ((parse_frame_header (0x82 ∷ 126 ∷ 0 ∷ 125 ∷ []) blank).0 ≡ protocol_error)
unfolding parse_frame_header parse_length parse_mask
parse_refused = (refl, refl)

sound_example : IsRfcHeader masked_hello masked_header × (6 ≤ length masked_hello)
sound_example =
    parse_frame_header-IsRfcHeader masked_hello blank masked_header (omega arith) parse_masked

keeps_example :
    parse_frame_header (masked_hello ++ 0x7f ∷ []) blank ≡ parse_frame_header masked_hello blank
unfolding parse_frame_header parse_length parse_mask
keeps_example = parse_frame_header_keeps (0x7f ∷ []) masked_hello blank (λ e. cc)

waits_example : (parse_frame_header (0x81 ∷ 0x85 ∷ 0x37 ∷ []) blank).0 ≡ need_more_data
waits_example =
    parse_frame_header_waits (0x81 ∷ 0x85 ∷ 0x37 ∷ []) (0xfa ∷ 0x21 ∷ 0x3d ∷ []) blank masked_header
      (omega arith) parse_masked (omega arith)

abbrev plain_x86 : Target
plain_x86 = record { avx2 = false; sse2 = true }

abbrev hello : Bytes
hello = 0x7f ∷ 0x9f ∷ 0x4d ∷ 0x51 ∷ 0x58 ∷ []

unmask_hello :
    unmask_payload_inplace plain_x86 hello 0x37fa213d ≡ b'H' ∷ b'e' ∷ b'l' ∷ b'l' ∷ b'o' ∷ []
unfolding unmask_payload_inplace xor_lanes repeat_key xor_chunks tier tier_word tail
unmask_hello = refl

unmask_payload_inplace_example :
    (unmask_payload_inplace plain_x86 hello 0x37fa213d
      ≡ cycle 0 (0x37 ∷ 0xfa ∷ 0x21 ∷ 0x3d ∷ []) hello)
    × (unmask_payload_inplace plain_x86
          (unmask_payload_inplace plain_x86 hello 0x37fa213d)
          0x37fa213d
        ≡ hello)
unmask_payload_inplace_example = unmask_payload_inplace_lem plain_x86 plain_x86 hello 0x37fa213d

close_codes : (is_valid_close_code 1005 ≡ false) × (is_valid_close_code 4999 ≡ true)
unfolding is_valid_close_code
close_codes = (refl, refl)
