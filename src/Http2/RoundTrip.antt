-- ===== src/Http2/RoundTrip.antt =====
-- src/http/v2/Http2Frame.h: the frame header codec both ways, and the frames sent on errors.
use Prim.Native.Nat.{bit_and, bit_or}
use aegon.Base.{
  ℕ, ◌+◌, ◌*◌, ◌/◌, ◌%◌, ◌^◌, ◌<◌, ◌≡◌, refl, ap, [], ◌∷◌, ◌++◌, arith, length, take, drop, All,
}
use aegon.Base.Bits.{and_low, or_shift}
use aegon.Base.Bytes.{Bytes, IsByte, be_value, be_bytes, be_value-be_bytes}
use aegon.Http2.Frame.{
  FrameHeader, decode, encode, goaway, rst_stream, make_goaway_frame, make_rst_frame,
}

-- Three bytes joined by `<<` and `|`.
join_three :
    (a b c : ℕ)
    → b < 256
    → c < 256
    → bit_or (bit_or (a * 2 ^ 16) (b * 2 ^ 8)) c ≡ (a * 256 + b) * 256 + c
join_three a b c hb hc = omega (
  arith,
  or_shift 16 a (b * 2 ^ 8) (omega arith),
  or_shift 8 (a * 2 ^ 8 + b) c (omega arith),
  ap (λ (t : ℕ). bit_or t c) (or_shift 16 a (b * 2 ^ 8) (omega arith)),
  ap (λ (t : ℕ). bit_or t c) regroup,
)
  where
    regroup : a * 2 ^ 16 + b * 2 ^ 8 ≡ (a * 2 ^ 8 + b) * 2 ^ 8
    regroup = omega arith

pub decode-encode :
    (hdr : FrameHeader) (rest : Bytes)
    → decode (encode hdr ++ rest)
      ≡ record hdr { length = hdr.length % 2 ^ 24; stream_id = hdr.stream_id % 2 ^ 31 }
unfolding decode encode
decode-encode hdr rest =
    λ i. record { length = len i; type = hdr.type; flags = hdr.flags; stream_id = sid i }
  where
    len :
        bit_or
          (bit_or
            (bit_and (hdr.length / 2 ^ 16) 0xff * 2 ^ 16)
            (bit_and (hdr.length / 2 ^ 8) 0xff * 2 ^ 8))
          (bit_and hdr.length 0xff)
        ≡ hdr.length % 2 ^ 24
    len =
        rw (and_low 8 (hdr.length / 2 ^ 16), and_low 8 (hdr.length / 2 ^ 8), and_low 8 hdr.length)
          (omega (
            arith,
            join_three (hdr.length / 2 ^ 16 % 2 ^ 8) (hdr.length / 2 ^ 8 % 2 ^ 8)
                (hdr.length % 2 ^ 8) (omega arith) (omega arith),
          ))

    sid :
        bit_and (be_value 0 (be_bytes 4 (bit_and hdr.stream_id 0x7fff_ffff))) 0x7fff_ffff
        ≡ hdr.stream_id % 2 ^ 31
    sid =
        let word = bit_and hdr.stream_id 0x7fff_ffff in
        omega (
          arith,
          and_low 31 hdr.stream_id,
          and_low 31 (be_value 0 (be_bytes 4 word)),
          be_value-be_bytes 4 0 word,
        )

encode-decode :
    (b0 b1 b2 b3 b4 b5 b6 b7 b8 : ℕ) (rest : Bytes)
    → All IsByte (b0 ∷ b1 ∷ b2 ∷ b3 ∷ b4 ∷ b5 ∷ b6 ∷ b7 ∷ b8 ∷ [])
    → encode (decode (b0 ∷ b1 ∷ b2 ∷ b3 ∷ b4 ∷ b5 ∷ b6 ∷ b7 ∷ b8 ∷ rest))
      ≡ b0 ∷ b1 ∷ b2 ∷ b3 ∷ b4 ∷ (b5 % 128) ∷ b6 ∷ b7 ∷ b8 ∷ []
unfolding decode encode
encode-decode b0 b1 b2 b3 b4 b5 b6 b7 b8 rest h =
    let len : ℕ = bit_or (bit_or (b0 * 2 ^ 16) (b1 * 2 ^ 8)) b2 in
    let word : ℕ = (((0 + b5) * 256 + b6) * 256 + b7) * 256 + b8 in
    let e : len ≡ (b0 * 256 + b1) * 256 + b2 = join_three b0 b1 b2 (omega arith) (omega arith) in
    let s : bit_and (bit_and word 0x7fff_ffff) 0x7fff_ffff ≡ word % 2 ^ 31 =
      omega (arith, and_low 31 word, and_low 31 (bit_and word 0x7fff_ffff)) in
    rw (and_low 8 (len / 2 ^ 16), and_low 8 (len / 2 ^ 8), and_low 8 len, e, s) (ground arith)

decode-make_goaway_frame :
    (last_stream_id error_code : ℕ)
    → (decode (make_goaway_frame last_stream_id error_code)
        ≡ record { length = 8; type = goaway; flags = 0; stream_id = 0 })
      × (length (make_goaway_frame last_stream_id error_code) ≡ 9 + 8)
      × (be_value 0 (take 4 (drop 9 (make_goaway_frame last_stream_id error_code)))
          ≡ last_stream_id % 2 ^ 31)
      × (be_value 0 (drop 13 (make_goaway_frame last_stream_id error_code)) ≡ error_code % 2 ^ 32)
unfolding make_goaway_frame
decode-make_goaway_frame s e = (
  unfold decode in refl,
  refl,
  omega (arith, and_low 31 s, be_value-be_bytes 4 0 (bit_and s 0x7fff_ffff)),
  omega (arith, be_value-be_bytes 4 0 e),
)

decode-make_rst_frame :
    (stream_id error_code : ℕ)
    → (decode (make_rst_frame stream_id error_code)
        ≡ record { length = 4; type = rst_stream; flags = 0; stream_id = stream_id % 2 ^ 31 })
      × (length (make_rst_frame stream_id error_code) ≡ 9 + 4)
      × (be_value 0 (drop 9 (make_rst_frame stream_id error_code)) ≡ error_code % 2 ^ 32)
unfolding make_rst_frame
decode-make_rst_frame s e = (
  decode-encode (record { length = 4; type = rst_stream; flags = 0; stream_id = s }) (be_bytes 4 e),
  refl,
  omega (arith, be_value-be_bytes 4 0 e),
)

-- Decoding what `encode` wrote, whatever follows, gives the header with its length in 24 bits and
-- its stream number in 31. Encoding what `decode` read from nine bytes gives them back, but for the
-- reserved top bit of the stream number, which is cleared.
pub frame_header_codec :
    (hdr : FrameHeader) (b0 b1 b2 b3 b4 b5 b6 b7 b8 : ℕ) (rest : Bytes)
    → All IsByte (b0 ∷ b1 ∷ b2 ∷ b3 ∷ b4 ∷ b5 ∷ b6 ∷ b7 ∷ b8 ∷ [])
    → (decode (encode hdr ++ rest)
        ≡ record hdr { length = hdr.length % 2 ^ 24; stream_id = hdr.stream_id % 2 ^ 31 })
      × (encode (decode (b0 ∷ b1 ∷ b2 ∷ b3 ∷ b4 ∷ b5 ∷ b6 ∷ b7 ∷ b8 ∷ rest))
          ≡ b0 ∷ b1 ∷ b2 ∷ b3 ∷ b4 ∷ (b5 % 128) ∷ b6 ∷ b7 ∷ b8 ∷ [])
frame_header_codec hdr b0 b1 b2 b3 b4 b5 b6 b7 b8 rest h =
    (decode-encode hdr rest, encode-decode b0 b1 b2 b3 b4 b5 b6 b7 b8 rest h)

-- A GOAWAY frame decodes as one on stream 0 with the 8 bytes of payload that follow its header:
-- the last stream number in 31 bits, and the error code in 32. An RST_STREAM frame decodes as one
-- on the given stream, in 31 bits, with the 4 bytes of payload that follow its header: the error
-- code in 32 bits.
pub decode_built_frames :
    (stream_id error_code : ℕ)
    → ((decode (make_goaway_frame stream_id error_code)
          ≡ record { length = 8; type = goaway; flags = 0; stream_id = 0 })
        × (length (make_goaway_frame stream_id error_code) ≡ 9 + 8)
        × (be_value 0 (take 4 (drop 9 (make_goaway_frame stream_id error_code)))
            ≡ stream_id % 2 ^ 31)
        × (be_value 0 (drop 13 (make_goaway_frame stream_id error_code)) ≡ error_code % 2 ^ 32))
      × ((decode (make_rst_frame stream_id error_code)
            ≡ record { length = 4; type = rst_stream; flags = 0; stream_id = stream_id % 2 ^ 31 })
          × (length (make_rst_frame stream_id error_code) ≡ 9 + 4)
          × (be_value 0 (drop 9 (make_rst_frame stream_id error_code)) ≡ error_code % 2 ^ 32))
decode_built_frames stream_id error_code =
    (decode-make_goaway_frame stream_id error_code, decode-make_rst_frame stream_id error_code)
