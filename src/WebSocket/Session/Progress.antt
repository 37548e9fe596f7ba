-- ===== src/WebSocket/Session/Progress.antt =====
-- src/http/websocket/WebSocketSession.cpp: the rounds of the loop of `process_incoming_data`.
use Prim.Native.Nat.{bit_and}
use aegon.Base.{
  ℕ, zero, suc, ◌+◌, ◌≤◌, ◌≡◌, refl, Bool, true, false, ◌&&◌, [], ◌∷◌, arith, length, length-drop,
  if◌then◌else◌, take, drop,
}
use aegon.Base.Bytes.{Bytes, be_value}
use aegon.WebSocket.Frame.{
  FrameHeader, FrameParseResult, complete, need_more_data, protocol_error, parse_frame_header,
  parse_length, parse_mask,
}
use aegon.WebSocket.Opcode.{has_bit}
use aegon.WebSocket.Mask.{unmask_payload_inplace}
use aegon.WebSocket.Session.{
  Utf8, Setup, Session, Round, wait, ended, consumed, end_with, on_frame, round_end, on_header,
  on_parsed, after_round, read_frames, blank_header,
}

-- An accepted header is at least as long as what stands before its mask.
parse_mask_long :
    (offset : ℕ) (rest : Bytes) (out : FrameHeader)
    → (parse_mask offset rest out).0 ≡ complete
    → offset ≤ (parse_mask offset rest out).1.header_len
unfolding parse_mask
parse_mask_long offset rest out e = ground arith

parse_length_long :
    (code : ℕ) (rest : Bytes) (out : FrameHeader)
    → (parse_length code rest out).0 ≡ complete
    → 2 ≤ (parse_length code rest out).1.header_len
unfolding parse_length
parse_length_long code rest out e =
    let at2 = be_value 0 (take 2 rest) in
    let at8 = be_value 0 (take 8 rest) in
    ground (
      arith,
      parse_mask_long 2 rest (record out { payload_len = code }),
      parse_mask_long 4 (drop 2 rest) (record out { payload_len = at2 }),
      parse_mask_long 10 (drop 8 rest) (record out { payload_len = at8 }),
    )

parse_frame_header_long :
    (buf : Bytes) (out : FrameHeader)
    → (parse_frame_header buf out).0 ≡ complete
    → 2 ≤ (parse_frame_header buf out).1.header_len
unfolding parse_frame_header
parse_frame_header_long [] out e = ground arith
parse_frame_header_long (b0 ∷ []) out e = ground arith
parse_frame_header_long (b0 ∷ b1 ∷ rest) out e = ground (
  arith,
  parse_length_long (bit_and b1 0x7f) rest (record out {
    fin = has_bit b0 0x80;
    rsv1 = has_bit b0 0x40;
    rsv2 = has_bit b0 0x20;
    rsv3 = has_bit b0 0x10;
    opcode = bit_and b0 0x0f;
    masked = has_bit b1 0x80;
  }),
)

-- A round that goes on takes bytes from the buffer.
abbrev taken : {V : Type 0} → Round V → ℕ
taken (wait s) = 1
taken (ended s) = 1
taken (consumed n s) = n

record IsProgress {V : Type 0} (r : Round V) : Type 0 where
  some_taken : 1 ≤ taken r

module _ {V : Type 0} (u : Utf8 V) (c : Setup) where
  either_round :
      (b : Bool) (x y : Round V) → IsProgress x → IsProgress y → IsProgress (if b then x else y)
  either_round true x y hx hy = hx
  either_round false x y hx hy = hy

  round_end-IsProgress : (n : ℕ) (r : Bool × Session V) → 1 ≤ n → IsProgress (round_end u c n r)
  round_end-IsProgress n (false, s) h = record { some_taken = omega arith }
  round_end-IsProgress n (true, s) h = record { some_taken = h }

  ended-IsProgress : (s : Session V) → IsProgress (ended s)
  ended-IsProgress s = record { some_taken = omega arith }

  wait-IsProgress : (s : Session V) → IsProgress (wait s)
  wait-IsProgress s = record { some_taken = omega arith }

  on_header-IsProgress :
      (remaining : Bytes) (f : FrameHeader) (s : Session V)
      → 2 ≤ f.header_len
      → IsProgress (on_header u c remaining f s)
  unfolding on_header
  on_header-IsProgress remaining f s h =
      let total = f.header_len + f.payload_len in
      let payload = take f.payload_len (drop f.header_len remaining) in
      let some : 1 ≤ total = omega arith in
      let frame = λ (bytes : Bytes). round_end-IsProgress total (on_frame u c f bytes s) some in
      either_round _ _ _ (ended-IsProgress (end_with 1009 s).1) (
        either_round _ (wait s) _ (wait-IsProgress s) (
          either_round f.masked _ _ (frame (unmask_payload_inplace c.target payload f.mask_key)) (
            either_round (c.require_masked_frames && c.http1) _ _
              (ended-IsProgress (end_with 1002 s).1) (frame payload))))

  on_parsed-IsProgress :
      (remaining : Bytes) (r : FrameParseResult × FrameHeader) (s : Session V)
      → (r.0 ≡ complete → 2 ≤ r.1.header_len)
      → IsProgress (on_parsed u c remaining r s)
  on_parsed-IsProgress remaining (need_more_data, f) s h = wait-IsProgress s
  on_parsed-IsProgress remaining (protocol_error, f) s h = ended-IsProgress _
  on_parsed-IsProgress remaining (complete, f) s h = on_header-IsProgress remaining f s (h refl)

  -- The loop as the source runs it, with no fuel: it ends where no byte is left, where it breaks to
  -- wait and where it returns, and goes on behind the frame otherwise. A derivation is a run of it to
  -- its end, from the bytes and the session to the outcome.
  pub data LoopEnds : Bytes → Session V → Bool × (Bytes × Session V) → Type 0 where
    empty : (s : Session V) → LoopEnds [] s (true, ([], s))
    breaks :
        (remaining : Bytes) (s t : Session V)
        → 1 ≤ length remaining
        → on_parsed u c remaining (parse_frame_header remaining blank_header) s ≡ wait t
        → LoopEnds remaining s (true, (remaining, t))
    returns :
        (remaining : Bytes) (s t : Session V)
        → 1 ≤ length remaining
        → on_parsed u c remaining (parse_frame_header remaining blank_header) s ≡ ended t
        → LoopEnds remaining s (false, (remaining, t))
    goes_on :
        (remaining : Bytes) (s : Session V) (n : ℕ) (t : Session V)
        (out : Bool × (Bytes × Session V))
        → 1 ≤ length remaining
        → on_parsed u c remaining (parse_frame_header remaining blank_header) s ≡ consumed n t
        → LoopEnds (drop n remaining) t out
        → LoopEnds remaining s out

  after_round-LoopEnds :
      (m : ℕ) (f : Bytes → Session V → Bool × (Bytes × Session V)) (remaining : Bytes)
      (s : Session V) (r : Round V)
      → on_parsed u c remaining (parse_frame_header remaining blank_header) s ≡ r
      → ((rest : Bytes) (t : Session V) → length rest ≤ m → LoopEnds rest t (f rest t))
      → 1 ≤ length remaining
      → length remaining ≤ suc m
      → IsProgress r
      → LoopEnds remaining s (after_round u c f remaining r)
  after_round-LoopEnds m f remaining s (wait t) e others long h p = breaks remaining s t long e
  after_round-LoopEnds m f remaining s (ended t) e others long h p = returns remaining s t long e
  after_round-LoopEnds m f remaining s (consumed n t) e others long h p =
      goes_on remaining s n t _ long e
        (others (drop n remaining) t (omega (arith, p.some_taken, length-drop n remaining)))

  -- Whatever the bytes and the session, the loop over the frames ends, and with fuel of at least the
  -- length of the bytes `read_frames` returns its outcome.
  pub read_frames-LoopEnds :
      (fuel : ℕ) (remaining : Bytes) (s : Session V)
      → length remaining ≤ fuel
      → LoopEnds remaining s (read_frames u c fuel remaining s)
  unfolding read_frames
  read_frames-LoopEnds zero [] s h = empty s
  read_frames-LoopEnds zero (b ∷ bs) s h = absurd (omega arith)
  read_frames-LoopEnds (suc f) [] s h = empty s
  read_frames-LoopEnds (suc f) (b ∷ bs) s h =
      let parsed = parse_frame_header (b ∷ bs) blank_header in
      after_round-LoopEnds (length bs) (read_frames u c f) (b ∷ bs) s
        (on_parsed u c (b ∷ bs) parsed s) refl
        (λ rest t le. read_frames-LoopEnds f rest t (omega arith)) (omega arith) (omega arith)
        (on_parsed-IsProgress (b ∷ bs) parsed s (parse_frame_header_long (b ∷ bs) blank_header))
