-- ===== src/WebSocket/Session/Tests.antt =====
-- Runs of a session that echoes, and the invariant at one of its states.
use aegon.Base.{Bool, true, false, none, ◌≡◌, refl, [], ◌∷◌, arith}
use aegon.Base.Bytes.{Bytes}
use aegon.WebSocket.Opcode.{text}
use aegon.WebSocket.Frame.{parse_frame_header, parse_length, parse_mask, serialize_frame_header}
use aegon.WebSocket.Session.{
  Utf8, Setup, Session, write_raw, send_error_close, process_incoming_data, read_frames,
}
use aegon.WebSocket.Session.Progress.{LoopEnds, read_frames-LoopEnds}
use aegon.WebSocket.Session.Bounded.{IsBounded}
use aegon.WebSocket.Session.Active.{process_incoming_data-IsBounded}

-- Checks that take any text, with nothing to remember.
abbrev any_text : Utf8 Bool
any_text = record {
  reset = true;
  update = λ bytes v. (true, v);
  is_valid_end = λ v. true;
  is_valid_utf8 = λ bytes. true;
}

abbrev echo : Setup
echo = record {
  max_frame_size = 8;
  max_message_size = 3;
  require_masked_frames = false;
  http1 = false;
  handler = none;
  echo_handler = false;
  message_callback = false;
  text_callback = false;
  binary_callback = false;
  close_callback = false;
  ping_callback = false;
  target = record { avx2 = false; sse2 = false };
}

abbrev fresh : Session Bool
fresh = record {
  stream_buf = [];
  batch_out = [];
  fragment_in_progress = false;
  fragment_opcode = text;
  fragment_buffer = [];
  utf8_validator = true;
  is_closed = false;
  initialized = true;
  effects = [];
}

-- "ab" as a first fragment, and the header and first byte of the last one.
abbrev first_part : Bytes
first_part = 0x01 ∷ 2 ∷ b'a' ∷ b'b' ∷ 0x80 ∷ 1 ∷ []

abbrev middle : Session Bool
middle = (process_incoming_data any_text echo first_part fresh).1

gathered : middle.fragment_buffer ≡ b'a' ∷ b'b' ∷ []
unfolding process_incoming_data parse_frame_header parse_length parse_mask serialize_frame_header
gathered = refl

waiting : middle.stream_buf ≡ 0x80 ∷ 1 ∷ []
unfolding process_incoming_data parse_frame_header parse_length parse_mask serialize_frame_header
waiting = refl

-- The rest of the frame completes the message, which goes back in one frame.
echoed :
    (process_incoming_data any_text echo (b'c' ∷ []) middle).1.effects
    ≡ write_raw (0x81 ∷ 3 ∷ b'a' ∷ b'b' ∷ b'c' ∷ []) ∷ []
unfolding process_incoming_data parse_frame_header parse_length parse_mask serialize_frame_header
echoed = refl

-- A second fragment that takes the message past the limit closes the session with 1009.
too_big :
    (process_incoming_data any_text echo (0x01 ∷ 2 ∷ 1 ∷ 2 ∷ 0x00 ∷ 2 ∷ 3 ∷ 4 ∷ []) fresh).1.effects
    ≡ send_error_close 1009 ∷ []
unfolding process_incoming_data parse_frame_header parse_length parse_mask serialize_frame_header
too_big = refl

process_incoming_data-IsBounded_example :
    IsBounded 3 (process_incoming_data any_text echo first_part fresh)
process_incoming_data-IsBounded_example =
    process_incoming_data-IsBounded any_text echo first_part fresh (omega arith)

read_frames-LoopEnds_example :
    LoopEnds any_text echo first_part fresh (read_frames any_text echo 6 first_part fresh)
read_frames-LoopEnds_example = read_frames-LoopEnds any_text echo 6 first_part fresh (omega arith)
