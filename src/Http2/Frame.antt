-- ===== src/Http2/Frame.antt =====
-- src/http/v2/Http2Frame.h: the nine-byte frame header, and the two frames built in one piece.
use Prim.Native.Nat.{bit_and, bit_or}
use aegon.Base.{ℕ, ◌*◌, ◌/◌, ◌^◌, ◌∷◌, ◌++◌, get_or, take, drop}
use aegon.Base.Bytes.{Bytes, be_value, be_bytes}

-- `enum class FrameType : uint8_t`: `static_cast` makes one of any byte.
abbrev pub rst_stream : ℕ
rst_stream = 0x3

abbrev pub goaway : ℕ
goaway = 0x7

pub record FrameHeader : Type 0 where
  pub length : ℕ
  pub type : ℕ
  pub flags : ℕ
  pub stream_id : ℕ

-- `x << 16` and `x << 8` of a byte, in 32 bits.
unfoldable pub decode : Bytes → FrameHeader
decode bytes =
    let byte = λ (i : ℕ). get_or bytes i 0 in
    record {
      length = bit_or (bit_or (byte 0 * 2 ^ 16) (byte 1 * 2 ^ 8)) (byte 2);
      type = byte 3;
      flags = byte 4;
      stream_id = bit_and (be_value 0 (take 4 (drop 5 bytes))) 0x7fff_ffff;
    }

unfoldable pub encode : FrameHeader → Bytes
encode hdr =
    bit_and (hdr.length / 2 ^ 16) 0xff
    ∷ bit_and (hdr.length / 2 ^ 8) 0xff
    ∷ bit_and hdr.length 0xff
    ∷ hdr.type
    ∷ hdr.flags
    ∷ be_bytes 4 (bit_and hdr.stream_id 0x7fff_ffff)

unfoldable pub make_goaway_frame : ℕ → ℕ → Bytes
unfolding encode
make_goaway_frame last_stream_id error_code =
    encode (record { length = 8; type = goaway; flags = 0; stream_id = 0 })
    ++ (be_bytes 4 (bit_and last_stream_id 0x7fff_ffff) ++ be_bytes 4 error_code)

unfoldable pub make_rst_frame : ℕ → ℕ → Bytes
unfolding encode
make_rst_frame stream_id error_code =
    encode (record { length = 4; type = rst_stream; flags = 0; stream_id = stream_id })
    ++ be_bytes 4 error_code
