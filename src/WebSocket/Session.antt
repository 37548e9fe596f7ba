-- ===== src/WebSocket/Session.antt =====
-- src/http/websocket/WebSocketSession.cpp: the dispatcher that reads frames out of a byte stream.
-- What the session does to the transport and to the handlers is a list of effects, oldest first.
-- glaze's UTF-8 checks are a parameter. The fixed text of an error's close frame is left out. A
-- handler is taken to change nothing of the session itself.
pub mod Bounded
pub mod Active
pub mod Progress
mod Tests
use aegon.Base.{
  ℕ, zero, suc, ◌+◌, Bool, true, false, not, ◌&&◌, ◌||◌, Option, none, some, List, [], ◌∷◌, ◌++◌,
  ltb, leb, ◌==◌, if◌then◌else◌, length, take, drop,
}
use aegon.Base.Bytes.{Bytes, be_value}
use aegon.WebSocket.Opcode.{continuation, text, binary, close, ping, pong, is_valid_close_code}
use aegon.WebSocket.Frame.{
  FrameHeader, FrameParseResult, complete, need_more_data, protocol_error, parse_frame_header,
  serialize_frame_header,
}
use aegon.WebSocket.Mask.{Target, unmask_payload_inplace}

pub data Effect : Type 0 where
  call_handler close_transport : Effect
  write_raw send_pong call_ping call_text call_binary : Bytes → Effect
  call_echo call_message send_close call_close : ℕ → Bytes → Effect
  send_error_close : ℕ → Effect

-- glz::utf8_stream_validator with its state `V`, and glz::validate_utf8.
pub record Utf8 (V : Type 0) : Type 0 where
  pub reset : V
  pub update : Bytes → V → Bool × V
  pub is_valid_end : V → Bool
  pub is_valid_utf8 : Bytes → Bool

-- The configuration, and which handlers are there. `handler` is `some true` if its call throws.
pub record Setup : Type 0 where
  pub max_frame_size : ℕ
  pub max_message_size : ℕ
  pub require_masked_frames : Bool
  pub http1 : Bool
  pub handler : Option Bool
  pub echo_handler : Bool
  pub message_callback : Bool
  pub text_callback : Bool
  pub binary_callback : Bool
  pub close_callback : Bool
  pub ping_callback : Bool
  pub target : Target

pub record Session (V : Type 0) : Type 0 where
  pub stream_buf : Bytes
  pub batch_out : Bytes
  pub fragment_in_progress : Bool
  pub fragment_opcode : ℕ
  pub fragment_buffer : Bytes
  pub utf8_validator : V
  pub is_closed : Bool
  pub initialized : Bool
  pub effects : List Effect

abbrev pub blank_header : FrameHeader
blank_header = record {
  fin = false;
  rsv1 = false;
  rsv2 = false;
  rsv3 = false;
  opcode = 0;
  masked = false;
  mask_key = 0;
  payload_len = 0;
  header_len = 0;
}

-- One round of the loop: leave it to wait for bytes, end the session, or go on behind a frame.
pub data Round (V : Type 0) : Type 0 where
  wait ended : Session V → Round V
  consumed : ℕ → Session V → Round V

module _ {V : Type 0} where
  abbrev pub perform : Effect → Session V → Session V
  perform e s = record s { effects = s.effects ++ (e ∷ []) }

  -- if (!batch_out_.empty()) { write_raw(batch_out_); batch_out_.clear(); }
  unfoldable pub flush : Session V → Session V
  flush s =
      if length s.batch_out == 0
      then s
      else record (perform (write_raw s.batch_out) s) { batch_out = [] }

  abbrev pub clear_batch : Session V → Session V
  clear_batch s = record s { batch_out = [] }

  -- is_closed_ = true; ws_.close(code, …); co_return false;
  abbrev pub end_with : ℕ → Session V → Bool × Session V
  end_with code s = (false, perform (send_error_close code) (record s { is_closed = true }))

module _ {V : Type 0} (u : Utf8 V) (c : Setup) where
  -- A whole message, to the handlers or back to the sender.
  unfoldable pub dispatch : ℕ → Bytes → Session V → Session V
  dispatch op payload s =
      if c.echo_handler
      then perform (call_echo op payload) s
      else if not c.message_callback && (not c.text_callback && not c.binary_callback)
      then record s {
        batch_out = s.batch_out ++ (serialize_frame_header op (length payload) true ++ payload);
      }
      else (let s' = if c.message_callback then perform (call_message op payload) s else s in
          if op == text && c.text_callback
          then perform (call_text payload) s'
          else if op == binary && c.binary_callback
          then perform (call_binary payload) s'
          else s')

  unfoldable pub on_ping : Bytes → Session V → Bool × Session V
  unfolding flush
  on_ping payload s =
      let s' = perform (send_pong payload) (flush s) in
      (true, if c.ping_callback then perform (call_ping payload) s' else s')

  unfoldable pub answer_close : ℕ → Bytes → Session V → Bool × Session V
  unfolding flush
  answer_close code reason s =
      let s' = flush (if c.close_callback then perform (call_close code reason) s else s) in
      (false, record (perform (send_close code reason) s') { is_closed = true })

  unfoldable pub on_close : Bytes → Session V → Bool × Session V
  unfolding answer_close
  on_close payload s =
      if length payload == 1
      then end_with 1002 (clear_batch s)
      else if ltb (length payload) 2
      then answer_close 1000 [] s
      else (let code = be_value 0 (take 2 payload) in
          let reason = drop 2 payload in
          if not (is_valid_close_code code)
          then end_with 1002 (clear_batch s)
          else if ltb 2 (length payload) && not (u.is_valid_utf8 reason)
          then end_with 1007 (clear_batch s)
          else answer_close code reason s)

  -- utf8_validator_.update(payload), of a text message only.
  abbrev pub check : ℕ → Bytes → V → Bool × V
  check op payload v = if op == text then u.update payload v else (true, v)

  unfoldable pub on_continuation : Bool → Bytes → Session V → Bool × Session V
  unfolding flush dispatch
  on_continuation fin payload s =
      if not s.fragment_in_progress
      then end_with 1002 (flush s)
      else if ltb c.max_message_size (length s.fragment_buffer + length payload)
      then end_with 1009 (clear_batch s)
      else (let (ok, v) = check s.fragment_opcode payload s.utf8_validator in
          let s1 = record s { utf8_validator = v } in
          let whole = s.fragment_buffer ++ payload in
          let s2 = record s1 { fragment_buffer = whole } in
          if not ok
          then end_with 1007 (clear_batch s1)
          else if not fin
          then (true, s2)
          else if s.fragment_opcode == text && not (u.is_valid_end v)
          then end_with 1007 (clear_batch s2)
          else (
            true,
            record (dispatch s.fragment_opcode whole (record s2 { fragment_in_progress = false })) {
              fragment_buffer = [];
            },
          ))

  unfoldable pub on_data : ℕ → Bool → Bytes → Session V → Bool × Session V
  unfolding flush dispatch
  on_data op fin payload s =
      let (ok, v) = check op payload (if op == text then u.reset else s.utf8_validator) in
      let s0 = record s { utf8_validator = v } in
      let s1 = record s0 {
        fragment_in_progress = true;
        fragment_opcode = op;
        fragment_buffer = [];
      } in
      if s.fragment_in_progress
      then end_with 1002 (flush s)
      else if not fin
      then (if not ok
          then end_with 1007 (clear_batch s1)
          else if ltb c.max_message_size (length payload)
          then end_with 1009 (clear_batch s1)
          else (true, record s1 { fragment_buffer = payload }))
      else if op == text && (not ok || not (u.is_valid_end v))
      then end_with 1007 (clear_batch s0)
      else (true, dispatch op payload s0)

  unfoldable pub on_frame : FrameHeader → Bytes → Session V → Bool × Session V
  unfolding on_ping on_close on_continuation on_data
  on_frame h payload s =
      if h.opcode == ping
      then on_ping payload s
      else if h.opcode == pong
      then (true, s)
      else if h.opcode == close
      then on_close payload s
      else if h.opcode == continuation
      then on_continuation h.fin payload s
      else if h.opcode == text || h.opcode == binary
      then on_data h.opcode h.fin payload s
      else (true, s)

  -- The end of a round: a full batch is written.
  abbrev pub round_end : ℕ → Bool × Session V → Round V
  round_end n (false, s) = ended s
  round_end n (true, s) = consumed n (if leb 65536 (length s.batch_out) then flush s else s)

  unfoldable pub on_header : Bytes → FrameHeader → Session V → Round V
  unfolding on_frame flush
  on_header remaining h s =
      if ltb c.max_frame_size h.payload_len || ltb c.max_message_size h.payload_len
      then ended (end_with 1009 s).1
      else if ltb (length remaining) (h.header_len + h.payload_len)
      then wait s
      else (let payload = take h.payload_len (drop h.header_len remaining) in
          let total = h.header_len + h.payload_len in
          if h.masked
          then round_end total (on_frame h (unmask_payload_inplace c.target payload h.mask_key) s)
          else if c.require_masked_frames && c.http1
          then ended (end_with 1002 s).1
          else round_end total (on_frame h payload s))

  abbrev pub on_parsed : Bytes → FrameParseResult × FrameHeader → Session V → Round V
  on_parsed remaining (need_more_data, h) s = wait s
  on_parsed remaining (protocol_error, h) s = ended (end_with 1002 (flush s)).1
  on_parsed remaining (complete, h) s = on_header remaining h s

  -- What follows a round: the `others`, from behind the frame.
  abbrev pub after_round :
      (Bytes → Session V → Bool × (Bytes × Session V))
      → Bytes
      → Round V
      → Bool × (Bytes × Session V)
  after_round others remaining (wait s) = (true, (remaining, s))
  after_round others remaining (ended s) = (false, (remaining, s))
  after_round others remaining (consumed n s) = others (drop n remaining) s

  -- The loop over the bytes that remain: whether the session goes on, what remains, and the session.
  unfoldable pub read_frames : ℕ → Bytes → Session V → Bool × (Bytes × Session V)
  unfolding on_header flush
  read_frames zero remaining s = (true, (remaining, s))
  read_frames (suc fuel) [] s = (true, ([], s))
  read_frames (suc fuel) (b ∷ bs) s =
      after_round (read_frames fuel) (b ∷ bs)
        (on_parsed (b ∷ bs) (parse_frame_header (b ∷ bs) blank_header) s)

  abbrev pub keep_rest : Bool × (Bytes × Session V) → Bool × Session V
  keep_rest (false, (rest, s)) = (false, s)
  keep_rest (true, (rest, s)) = (true, record (flush s) { stream_buf = rest })

  -- From "std::string_view input_source" on.
  unfoldable pub read_input : Bytes → Session V → Bool × Session V
  unfolding read_frames flush
  read_input bytes s =
      let source = if length s.stream_buf == 0 then bytes else s.stream_buf ++ bytes in
      let kept = if length s.stream_buf == 0 then [] else source in
      keep_rest
        (read_frames (length source) source (record s { batch_out = []; stream_buf = kept }))

  unfoldable pub process_incoming_data : Bytes → Session V → Bool × Session V
  unfolding read_input
  process_incoming_data bytes s =
      let s' = record s { initialized = true } in
      if s.is_closed
      then (false, s)
      else if s.initialized
      then read_input bytes s
      else elim c.handler [
        | none ↦ read_input bytes s'
        | some false ↦ read_input bytes (perform call_handler s')
        | some true ↦
            (false, record (perform close_transport (perform call_handler s')) { is_closed = true })
      ]
