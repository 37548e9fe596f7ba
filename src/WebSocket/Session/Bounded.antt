-- ===== src/WebSocket/Session/Bounded.antt =====
-- src/http/websocket/WebSocketSession.cpp: the size of the fragment buffer, and the state of a
-- session behind what `process_incoming_data` returns.
use aegon.Base.{
  ℕ, ◌+◌, ◌≤◌, ◌≡◌, refl, Bool, true, false, not, ◌&&◌, ◌||◌, [], ◌++◌, arith, length,
  length-append, ltb, ◌==◌, if◌then◌else◌, take, drop,
}
use aegon.Base.Bytes.{Bytes, be_value}
use aegon.WebSocket.Opcode.{text, binary, close, ping, pong, continuation, is_valid_close_code}
use aegon.WebSocket.Frame.{FrameHeader}
use aegon.WebSocket.Session.{
  Effect, Utf8, Setup, Session, perform, flush, clear_batch, end_with, dispatch, on_ping,
  answer_close, on_close, check, on_continuation, on_data, on_frame,
}

-- The session is active exactly where the flag says so, and what is gathered of a fragmented
-- message is within the limit `m`.
pub record IsBounded {V : Type 0} (m : ℕ) (r : Bool × Session V) : Type 0 where
  pub active : r.1.is_closed ≡ not r.0
  pub fits : length r.1.fragment_buffer ≤ m

module _ {V : Type 0} where
  flush-is_closed : (s : Session V) → (flush s).is_closed ≡ s.is_closed
  unfolding flush
  flush-is_closed s = ground arith

  pub flush-fragment_buffer : (s : Session V) → (flush s).fragment_buffer ≡ s.fragment_buffer
  unfolding flush
  flush-fragment_buffer s = ground arith

  pub flush-IsBounded :
      (m : ℕ) (b : Bool) (s : Session V) → IsBounded m (b, s) → IsBounded m (b, flush s)
  flush-IsBounded m b s h = record {
    active = ground (arith, flush-is_closed s, h.active);
    fits = ground (arith, flush-fragment_buffer s, h.fits);
  }

  pub end_with-IsBounded :
      (m code : ℕ) (s : Session V) → length s.fragment_buffer ≤ m → IsBounded m (end_with code s)
  end_with-IsBounded m code s h = record { active = refl; fits = h }

  either :
      {m : ℕ} (b : Bool) (x y : Bool × Session V)
      → IsBounded m x
      → IsBounded m y
      → IsBounded m (if b then x else y)
  either true x y hx hy = hx
  either false x y hx hy = hy

  -- Behind a size test, the size is known.
  guarded :
      {m : ℕ} (b : Bool) (x y : Bool × Session V)
      → IsBounded m x
      → (b ≡ false → IsBounded m y)
      → IsBounded m (if b then x else y)
  guarded true x y hx hy = hx
  guarded false x y hx hy = hy refl

module _ {V : Type 0} (u : Utf8 V) (c : Setup) (s : Session V)
    (h : IsBounded c.max_message_size (true, s)) where
  dispatch-is_closed :
      (op : ℕ) (payload : Bytes) (t : Session V)
      → (dispatch u c op payload t).is_closed ≡ t.is_closed
  unfolding dispatch
  dispatch-is_closed op payload t = ground arith

  dispatch-fragment_buffer :
      (op : ℕ) (payload : Bytes) (t : Session V)
      → (dispatch u c op payload t).fragment_buffer ≡ t.fragment_buffer
  unfolding dispatch
  dispatch-fragment_buffer op payload t = ground arith

  on_ping-IsBounded : (payload : Bytes) → IsBounded c.max_message_size (on_ping u c payload s)
  unfolding on_ping
  on_ping-IsBounded payload = record {
    active = ground (arith, flush-is_closed s, h.active);
    fits = ground (arith, flush-fragment_buffer s, h.fits);
  }

  answer_close-IsBounded :
      (code : ℕ) (reason : Bytes) → IsBounded c.max_message_size (answer_close u c code reason s)
  unfolding answer_close
  answer_close-IsBounded code reason = record {
    active = refl;
    fits = ground (
      arith,
      flush-fragment_buffer s,
      flush-fragment_buffer (perform (Effect.call_close code reason) s),
      h.fits,
    );
  }

  on_close-IsBounded : (payload : Bytes) → IsBounded c.max_message_size (on_close u c payload s)
  unfolding on_close
  on_close-IsBounded payload =
      let refused =
        λ (code : ℕ). end_with-IsBounded c.max_message_size code (clear_batch s) h.fits in
      either (length payload == 1) _ _ (refused 1002) (
        either (ltb (length payload) 2) _ _ (answer_close-IsBounded 1000 []) (
          either (not (is_valid_close_code (be_value 0 (take 2 payload)))) _ _ (refused 1002) (
            either (ltb 2 (length payload) && not (u.is_valid_utf8 (drop 2 payload))) _ _
              (refused 1007)
              (answer_close-IsBounded (be_value 0 (take 2 payload)) (drop 2 payload)))))

  out_of_order : IsBounded c.max_message_size (end_with 1002 (flush s))
  out_of_order =
      end_with-IsBounded c.max_message_size 1002 (flush s)
        (ground (arith, flush-fragment_buffer s, h.fits))

  on_continuation-IsBounded :
      (fin : Bool) (payload : Bytes)
      → IsBounded c.max_message_size (on_continuation u c fin payload s)
  unfolding on_continuation
  on_continuation-IsBounded fin payload =
      let (ok, v) = check u c s.fragment_opcode payload s.utf8_validator in
      let whole = s.fragment_buffer ++ payload in
      let size = ltb c.max_message_size (length s.fragment_buffer + length payload) in
      let refused = end_with-IsBounded c.max_message_size in
      either (not s.fragment_in_progress) _ _ out_of_order (
        guarded size _ _ (refused 1009 (clear_batch s) h.fits) (λ small.
          let fits : length whole ≤ c.max_message_size =
            ground (arith, length-append s.fragment_buffer payload) in
          either (not ok) _ _ (refused 1007 (record (clear_batch s) { utf8_validator = v }) h.fits)
            (either (not fin) _ _ (record { active = h.active; fits = fits })
              (either (s.fragment_opcode == text && not (u.is_valid_end v)) _ _
                (refused 1007
                  (record (clear_batch s) { utf8_validator = v; fragment_buffer = whole }) fits)
                (record {
                  active = ground (
                    arith,
                    h.active,
                    dispatch-is_closed s.fragment_opcode whole (record s {
                      utf8_validator = v;
                      fragment_buffer = whole;
                      fragment_in_progress = false;
                    }),
                  );
                  fits = omega arith;
                })))))

  on_data-IsBounded :
      (op : ℕ) (fin : Bool) (payload : Bytes)
      → IsBounded c.max_message_size (on_data u c op fin payload s)
  unfolding on_data
  on_data-IsBounded op fin payload =
      let (ok, v) = check u c op payload (if op == text then u.reset else s.utf8_validator) in
      let s0 : Session V = record s { utf8_validator = v } in
      let s1 : Session V = record s0 {
        fragment_in_progress = true;
        fragment_opcode = op;
        fragment_buffer = [];
      } in
      let refused = end_with-IsBounded c.max_message_size in
      either s.fragment_in_progress _ _ out_of_order (
        either (not fin) _ _
          (either (not ok) _ _ (refused 1007 (clear_batch s1) (omega arith)) (
            guarded (ltb c.max_message_size (length payload)) _ _
              (refused 1009 (clear_batch s1) (omega arith))
              (λ small. record { active = h.active; fits = ground arith })))
          (either (op == text && (not ok || not (u.is_valid_end v))) _ _
            (refused 1007 (clear_batch s0) h.fits)
            (record {
              active = ground (arith, h.active, dispatch-is_closed op payload s0);
              fits = ground (arith, h.fits, dispatch-fragment_buffer op payload s0);
            })))

  pub on_frame-IsBounded :
      (f : FrameHeader) (payload : Bytes) → IsBounded c.max_message_size (on_frame u c f payload s)
  unfolding on_frame
  on_frame-IsBounded f payload = either (f.opcode == ping) _ _ (on_ping-IsBounded payload) (
      either (f.opcode == pong) _ _ h (
        either (f.opcode == close) _ _ (on_close-IsBounded payload) (
          either (f.opcode == continuation) _ _ (on_continuation-IsBounded f.fin payload) (
            either (f.opcode == text || f.opcode == binary) _ _
              (on_data-IsBounded f.opcode f.fin payload) h))))
