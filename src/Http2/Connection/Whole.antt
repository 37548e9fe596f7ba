-- ===== src/Http2/Connection/Whole.antt =====
-- src/http/v2/Http2Connection.cpp: the scan of a read of whole frames.
use aegon.Base.{
  ℕ, zero, suc, ◌+◌, ◌%◌, ◌^◌, ◌≡◌, ◌≤◌, ◌<◌, refl, ap, sym, ◌∙◌, true, false, List, [], ◌∷◌, ◌++◌,
  ltb, leb, ◌==◌, if◌then◌else◌, length, take, drop, length-append, take-append_le, drop-drop,
  drop-length, le→ltb, le→leb, All, Bool-cases, inl, inr, arith,
}
use aegon.Base.Bytes.{bytes_eq, bytes_eq_refl, Bytes}
use aegon.Http2.Frame.{FrameHeader, encode, decode}
use aegon.Http2.RoundTrip.{decode-encode}
use aegon.Http2.Connection.{Connection}
use aegon.Http2.Connection.Scan.{
  Scanned, goes_on, gives_up, scan_priority, scan_frame, and_then, scan_frames, priority_type,
  client_preface, skip_preface, scan,
}

abbrev pub Frame : Type 0
Frame = FrameHeader × Bytes

-- A frame whose payload is as long as its header says, within the widths of the fields.
pub record IsWhole (f : Frame) : Type 0 where
  pub payload : length f.1 ≡ f.0.length
  pub length_width : f.0.length < 2 ^ 24
  pub stream_width : f.0.stream_id < 2 ^ 31

abbrev pub wire : List Frame → Bytes
wire [] = []
wire ((hdr, payload) ∷ frames) = encode hdr ++ (payload ++ wire frames)

-- Each frame looked at as if it came alone.
abbrev pub scan_each : List Frame → Connection → Scanned
scan_each [] c = goes_on c
scan_each ((hdr, payload) ∷ frames) c =
    and_then (scan_frame hdr (9 + length payload) payload c) (λ c'. scan_each frames c')

length-encode : (hdr : FrameHeader) → length (encode hdr) ≡ 9
unfolding encode
length-encode hdr = refl

decode_whole :
    (hdr : FrameHeader) (payload rest : Bytes)
    → IsWhole (hdr, payload)
    → decode (encode hdr ++ rest) ≡ hdr
decode_whole hdr payload rest h =
    let len : hdr.length % 2 ^ 24 ≡ hdr.length = omega (arith, h.length_width) in
    let sid : hdr.stream_id % 2 ^ 31 ≡ hdr.stream_id = omega (arith, h.stream_width) in
    decode-encode hdr rest ∙ (λ i. record hdr { length = len i; stream_id = sid i })

scan_priority_alone :
    (hdr : FrameHeader) (payload rest : Bytes) (c : Connection)
    → IsWhole (hdr, payload)
    → scan_priority hdr (9 + length (payload ++ rest)) (payload ++ rest) c
      ≡ scan_priority hdr (9 + length payload) payload c
scan_priority_alone hdr payload rest c h = elim (Bool-cases (leb 5 hdr.length)) [
  | inl t ↦
      let four = take-append_le 4 payload rest (ground (arith, t, h.payload)) in
      ground (arith, t, four, h.payload, length-append payload rest)
  | inr t ↦ ground (arith, t, h.payload, length-append payload rest)
]

-- What comes behind a whole frame changes nothing.
scan_frame_alone :
    (hdr : FrameHeader) (payload rest : Bytes) (c : Connection)
    → IsWhole (hdr, payload)
    → scan_frame hdr (9 + length (payload ++ rest)) (payload ++ rest) c
      ≡ scan_frame hdr (9 + length payload) payload c
unfolding scan_frame
scan_frame_alone hdr payload rest c h = elim (Bool-cases (hdr.type == priority_type)) [
  | inl t ↦ rw (t, scan_frame) (scan_priority_alone hdr payload rest c h)
  | inr t ↦ rw (t, scan_frame) refl
]

and_then_same :
    (s : Scanned) (next next' : Connection → Scanned)
    → ((c : Connection) → next c ≡ next' c)
    → and_then s next ≡ and_then s next'
and_then_same (goes_on c) next next' h = h c
and_then_same (gives_up c) next next' h = refl

scan_turn :
    (fuel : ℕ) (p : Bytes) (c : Connection)
    → 9 ≤ length p
    → scan_frames (suc fuel) p c
      ≡ and_then (scan_frame (decode p) (length p) (drop 9 p) c) (λ c'.
        if ltb (length p) (9 + (decode p).length)
        then goes_on c'
        else scan_frames fuel (drop (9 + (decode p).length) p) c')
unfolding scan_frames
scan_turn fuel p c h = rw (le→ltb (length p) 9 h) refl

drop_header : (hdr : FrameHeader) (rest : Bytes) → drop 9 (encode hdr ++ rest) ≡ rest
unfolding encode
drop_header hdr rest = refl

-- What is left behind a whole frame.
drop_frame :
    (hdr : FrameHeader) (payload rest : Bytes)
    → IsWhole (hdr, payload)
    → drop (9 + hdr.length) (encode hdr ++ (payload ++ rest)) ≡ rest
unfolding encode
drop_frame hdr payload rest h =
    sym (drop-drop 9 hdr.length (encode hdr ++ (payload ++ rest)))
    ∙ (ap (λ k. drop k (payload ++ rest)) (sym h.payload) ∙ drop-length payload rest)

-- One whole frame at the front of a read.
scan_whole :
    (fuel : ℕ) (hdr : FrameHeader) (payload rest : Bytes) (c : Connection)
    → IsWhole (hdr, payload)
    → scan_frames (suc fuel) (encode hdr ++ (payload ++ rest)) c
      ≡ and_then (scan_frame hdr (9 + length payload) payload c) (λ c'. scan_frames fuel rest c')
scan_whole fuel hdr payload rest c h =
    let p = encode hdr ++ (payload ++ rest) in
    let size : length p ≡ 9 + length (payload ++ rest) =
      omega (arith, length-append (encode hdr) (payload ++ rest), length-encode hdr) in
    let all : length (payload ++ rest) ≡ hdr.length + length rest =
      omega (arith, length-append payload rest, h.payload) in
    let fits : ltb (length p) (9 + hdr.length) ≡ false =
      le→ltb (length p) (9 + hdr.length) (omega (arith, size, all)) in
    let next = λ (d : FrameHeader) (c' : Connection).
      if ltb (length p) (9 + d.length)
      then goes_on c'
      else scan_frames fuel (drop (9 + d.length) p) c' in
    scan_turn fuel p c (omega (arith, size))
    ∙ (ap (λ d. and_then (scan_frame d (length p) (drop 9 p) c) (next d))
          (decode_whole hdr payload (payload ++ rest) h)
        ∙ (ap (λ s. and_then s (next hdr))
              (rw (size, drop_header hdr (payload ++ rest)) (scan_frame_alone hdr payload rest c h))
            ∙ and_then_same (scan_frame hdr (9 + length payload) payload c) (next hdr)
                (scan_frames fuel rest) (λ c'. rw (fits, drop_frame hdr payload rest h) refl)))

scan_frames-wire :
    (fuel : ℕ) (frames : List Frame) (c : Connection)
    → All IsWhole frames
    → length frames < fuel
    → scan_frames fuel (wire frames) c ≡ scan_each frames c
unfolding scan_frames
scan_frames-wire zero frames c h enough = absurd (omega (arith, enough))
scan_frames-wire (suc fuel) [] c h enough = refl
scan_frames-wire (suc fuel) ((hdr, payload) ∷ frames) c (h, hs) enough =
    scan_whole fuel hdr payload (wire frames) c h
    ∙ and_then_same (scan_frame hdr (9 + length payload) payload c) _ _
        (λ c'. scan_frames-wire fuel frames c' hs (omega (arith, enough)))

length-wire : (frames : List Frame) → length frames ≤ length (wire frames)
length-wire [] = omega arith
length-wire ((hdr, payload) ∷ frames) = omega (
  arith,
  length-wire frames,
  length-append (encode hdr) (payload ++ wire frames),
  length-append payload (wire frames),
  length-encode hdr,
)

skip_preface_after : (rest : Bytes) → skip_preface (client_preface ++ rest) ≡ rest
skip_preface_after rest =
    let long : leb 24 (length (client_preface ++ rest)) ≡ true =
      le→leb 24 (length (client_preface ++ rest))
        (omega (arith, length-append client_preface rest)) in
    let same : bytes_eq (take 24 (client_preface ++ rest)) client_preface ≡ true =
      bytes_eq_refl client_preface in
    rw (long, same) refl

scan_skipped :
    (p rest : Bytes) (c : Connection)
    → skip_preface p ≡ rest
    → scan p c ≡ scan_frames (suc (length p)) rest c
unfolding scan
scan_skipped p rest c e = ap (λ q. scan_frames (suc (length p)) q c) e

-- A read of whole frames whose bytes do not themselves begin with the client's preface is scanned as
-- if each of them came alone, one after the other up to the one that gives up the connection, with
-- the client's preface before them and without it.
pub scan-wire :
    (frames : List Frame) (c : Connection)
    → All IsWhole frames
    → bytes_eq (take 24 (wire frames)) client_preface ≡ false
    → (scan (client_preface ++ wire frames) c ≡ scan_each frames c)
      × (scan (wire frames) c ≡ scan_each frames c)
scan-wire frames c h plain =
    let few = length-wire frames in
    let skipped : skip_preface (wire frames) ≡ wire frames = rw plain (ground arith) in
    (
      scan_skipped (client_preface ++ wire frames) (wire frames) c
            (skip_preface_after (wire frames))
          ∙ scan_frames-wire (suc (length (client_preface ++ wire frames))) frames c h
              (omega (arith, few, length-append client_preface (wire frames))),
      scan_skipped (wire frames) (wire frames) c skipped
          ∙ scan_frames-wire (suc (length (wire frames))) frames c h (omega (arith, few)),
    )
