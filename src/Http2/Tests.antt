-- ===== src/Http2/Tests.antt =====
-- The frame codec at concrete frames.
use aegon.Base.{◌+◌, ◌≡◌, refl, [], ◌∷◌, ◌++◌, arith, length, take, drop}
use aegon.Base.Bytes.{be_value}
use aegon.Http2.Frame.{
  FrameHeader, decode, encode, goaway, rst_stream, make_goaway_frame, make_rst_frame,
}
use aegon.Http2.RoundTrip.{frame_header_codec, decode_built_frames}

abbrev headers_frame : FrameHeader
headers_frame = record { length = 70000; type = 1; flags = 4; stream_id = 5 }

encode_headers : encode headers_frame ≡ 1 ∷ 0x11 ∷ 0x70 ∷ 1 ∷ 4 ∷ 0 ∷ 0 ∷ 0 ∷ 5 ∷ []
unfolding encode
encode_headers = refl

frame_header_codec_example :
    (decode (encode headers_frame ++ []) ≡ headers_frame)
    × (encode (decode (0 ∷ 1 ∷ 2 ∷ 3 ∷ 4 ∷ 0x85 ∷ 6 ∷ 7 ∷ 8 ∷ []))
        ≡ 0 ∷ 1 ∷ 2 ∷ 3 ∷ 4 ∷ 5 ∷ 6 ∷ 7 ∷ 8 ∷ [])
frame_header_codec_example = frame_header_codec headers_frame 0 1 2 3 4 0x85 6 7 8 [] (omega arith)

decode_built_frames_example :
    ((decode (make_goaway_frame 7 2)
        ≡ record { length = 8; type = goaway; flags = 0; stream_id = 0 })
      × (length (make_goaway_frame 7 2) ≡ 9 + 8)
      × (be_value 0 (take 4 (drop 9 (make_goaway_frame 7 2))) ≡ 7)
      × (be_value 0 (drop 13 (make_goaway_frame 7 2)) ≡ 2))
    × ((decode (make_rst_frame 7 2)
          ≡ record { length = 4; type = rst_stream; flags = 0; stream_id = 7 })
        × (length (make_rst_frame 7 2) ≡ 9 + 4)
        × (be_value 0 (drop 9 (make_rst_frame 7 2)) ≡ 2))
decode_built_frames_example = decode_built_frames 7 2
