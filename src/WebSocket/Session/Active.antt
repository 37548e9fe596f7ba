-- ===== src/WebSocket/Session/Active.antt =====
-- src/http/websocket/WebSocketSession.cpp: the invariant of a session through
-- `process_incoming_data`, round by round.
use aegon.Base.{
  ℕ, zero, suc, ◌+◌, ◌≤◌, ◌≡◌, refl, Bool, true, false, ◌&&◌, ◌||◌, Option, none, some, [], ◌∷◌,
  arith, length, ltb, leb, if◌then◌else◌, take, drop,
}
use aegon.Base.Bytes.{Bytes}
use aegon.WebSocket.Frame.{
  FrameHeader, FrameParseResult, complete, need_more_data, protocol_error, parse_frame_header,
}
use aegon.WebSocket.Mask.{unmask_payload_inplace}
use aegon.WebSocket.Session.{
  Effect, Utf8, Setup, Session, Round, wait, ended, consumed, perform, flush, on_frame, round_end,
  on_header, on_parsed, after_round, read_frames, keep_rest, read_input, process_incoming_data,
  blank_header,
}
use aegon.WebSocket.Session.Bounded.{
  IsBounded, flush-IsBounded, flush-fragment_buffer, end_with-IsBounded, on_frame-IsBounded,
}

-- What a round of the loop leaves: a closed session where it ends, and an active one otherwise.
abbrev round_result : {V : Type 0} → Round V → Bool × Session V
round_result (wait s) = (true, s)
round_result (ended s) = (false, s)
round_result (consumed n s) = (true, s)

module _ {V : Type 0} (u : Utf8 V) (c : Setup) where
  either_round :
      (b : Bool) (x y : Round V)
      → IsBounded c.max_message_size (round_result x)
      → IsBounded c.max_message_size (round_result y)
      → IsBounded c.max_message_size (round_result (if b then x else y))
  either_round true x y hx hy = hx
  either_round false x y hx hy = hy

  flush_if-IsBounded :
      (b : Bool) (s : Session V)
      → IsBounded c.max_message_size (true, s)
      → IsBounded c.max_message_size (true, if b then flush s else s)
  flush_if-IsBounded true s h = flush-IsBounded c.max_message_size true s h
  flush_if-IsBounded false s h = h

  round_end-IsBounded :
      (n : ℕ) (r : Bool × Session V)
      → IsBounded c.max_message_size r
      → IsBounded c.max_message_size (round_result (round_end u c n r))
  round_end-IsBounded n (false, s) h = h
  round_end-IsBounded n (true, s) h = flush_if-IsBounded (leb 65536 (length s.batch_out)) s h

  on_header-IsBounded :
      (remaining : Bytes) (f : FrameHeader) (s : Session V)
      → IsBounded c.max_message_size (true, s)
      → IsBounded c.max_message_size (round_result (on_header u c remaining f s))
  unfolding on_header
  on_header-IsBounded remaining f s h =
      let payload = take f.payload_len (drop f.header_len remaining) in
      let total = f.header_len + f.payload_len in
      let frame = λ (bytes : Bytes).
        round_end-IsBounded total (on_frame u c f bytes s) (on_frame-IsBounded u c s h f bytes) in
      either_round (ltb c.max_frame_size f.payload_len || ltb c.max_message_size f.payload_len) _ _
        (end_with-IsBounded c.max_message_size 1009 s h.fits)
        (either_round (ltb (length remaining) total) _ _ h (
          either_round f.masked _ _ (frame (unmask_payload_inplace c.target payload f.mask_key)) (
            either_round (c.require_masked_frames && c.http1) _ _
              (end_with-IsBounded c.max_message_size 1002 s h.fits) (frame payload))))

  on_parsed-IsBounded :
      (remaining : Bytes) (r : FrameParseResult × FrameHeader) (s : Session V)
      → IsBounded c.max_message_size (true, s)
      → IsBounded c.max_message_size (round_result (on_parsed u c remaining r s))
  on_parsed-IsBounded remaining (need_more_data, f) s h = h
  on_parsed-IsBounded remaining (protocol_error, f) s h =
      end_with-IsBounded c.max_message_size 1002 (flush s)
        (ground (arith, flush-fragment_buffer s, h.fits))
  on_parsed-IsBounded remaining (complete, f) s h = on_header-IsBounded remaining f s h

  abbrev outcome : Bool × (Bytes × Session V) → Bool × Session V
  outcome (b, (rest, s)) = (b, s)

  after_round-IsBounded :
      (others : Bytes → Session V → Bool × (Bytes × Session V)) (remaining : Bytes) (r : Round V)
      → ((rest : Bytes) (s : Session V)
          → IsBounded c.max_message_size (true, s)
          → IsBounded c.max_message_size (outcome (others rest s)))
      → IsBounded c.max_message_size (round_result r)
      → IsBounded c.max_message_size (outcome (after_round u c others remaining r))
  after_round-IsBounded others remaining (wait s) go h = h
  after_round-IsBounded others remaining (ended s) go h = h
  after_round-IsBounded others remaining (consumed n s) go h = go (drop n remaining) s h

  read_frames-IsBounded :
      (fuel : ℕ) (remaining : Bytes) (s : Session V)
      → IsBounded c.max_message_size (true, s)
      → IsBounded c.max_message_size (outcome (read_frames u c fuel remaining s))
  unfolding read_frames
  read_frames-IsBounded zero remaining s h = h
  read_frames-IsBounded (suc fuel) [] s h = h
  read_frames-IsBounded (suc fuel) (b ∷ bs) s h =
      let parsed = parse_frame_header (b ∷ bs) blank_header in
      after_round-IsBounded (read_frames u c fuel) (b ∷ bs) (on_parsed u c (b ∷ bs) parsed s)
        (read_frames-IsBounded fuel) (on_parsed-IsBounded (b ∷ bs) parsed s h)

  keep_rest-IsBounded :
      (r : Bool × (Bytes × Session V))
      → IsBounded c.max_message_size (outcome r)
      → IsBounded c.max_message_size (keep_rest u c r)
  keep_rest-IsBounded (false, (rest, s)) h = h
  keep_rest-IsBounded (true, (rest, s)) h =
      let f = flush-IsBounded c.max_message_size true s h in
      record { active = f.active; fits = f.fits }

  read_input-IsBounded :
      (bytes : Bytes) (s : Session V)
      → IsBounded c.max_message_size (true, s)
      → IsBounded c.max_message_size (read_input u c bytes s)
  unfolding read_input
  read_input-IsBounded bytes s h =
      keep_rest-IsBounded _
        (read_frames-IsBounded _ _ _ (record { active = h.active; fits = h.fits }))

  by_test :
      (b : Bool) (x y : Bool × Session V)
      → (b ≡ true → IsBounded c.max_message_size x)
      → (b ≡ false → IsBounded c.max_message_size y)
      → IsBounded c.max_message_size (if b then x else y)
  by_test true x y hx hy = hx refl
  by_test false x y hx hy = hy refl

  process_started :
      (o : Option Bool) (bytes : Bytes) (s : Session V)
      → IsBounded c.max_message_size (true, s)
      → IsBounded {V = V} c.max_message_size (elim o [
        | none ↦ read_input u c bytes s
        | some false ↦ read_input u c bytes (perform Effect.call_handler s)
        | some true ↦ (
          false,
          record (perform Effect.close_transport (perform Effect.call_handler s)) {
            is_closed = true;
          },
        )
      ])
  process_started none bytes s h = read_input-IsBounded bytes s h
  process_started (some false) bytes s h =
      read_input-IsBounded bytes (perform Effect.call_handler s)
        (record { active = h.active; fits = h.fits })
  process_started (some true) bytes s h = record { active = refl; fits = h.fits }

  -- Whatever bytes arrive, in whatever state the session is with its fragment buffer within the
  -- configured message size: the buffer is within it afterwards, and the result is true exactly
  -- where the session is not closed.
  pub process_incoming_data-IsBounded :
      (bytes : Bytes) (s : Session V)
      → length s.fragment_buffer ≤ c.max_message_size
      → IsBounded c.max_message_size (process_incoming_data u c bytes s)
  unfolding process_incoming_data
  process_incoming_data-IsBounded bytes s h =
      by_test s.is_closed _ _ (λ e. record { active = e; fits = h })
        (λ e.
          by_test s.initialized _ _
            (λ i. read_input-IsBounded bytes s (record { active = e; fits = h }))
            (λ i.
              process_started c.handler bytes (record s { initialized = true })
                (record { active = e; fits = h })))
