-- ===== src/Http2/Connection/Scan.antt =====
-- src/http/v2/Http2Connection.cpp: what feed_data looks for in the bytes of a read before it hands
-- them to nghttp2. What is sent goes to the end of `outbound_buf`; its flushing is not modelled.
use Prim.Native.Nat.{bit_and}
use aegon.Base.{
  ℕ, zero, suc, ◌+◌, ◌%◌, Bool, true, false, not, ◌&&◌, ◌||◌, Option, none, some, [], ◌∷◌, ◌++◌,
  ltb, leb, ◌==◌, if◌then◌else◌, length, take, drop,
}
use aegon.Base.Bytes.{Bytes, be_value, bytes_eq}
use aegon.Http2.Frame.{FrameHeader, decode, make_goaway_frame, make_rst_frame}
use aegon.Http2.Connection.{Stream, Connection, contains, find_id, protocol_error, stream_closed}

-- `enum class FrameType`
abbrev pub data_type : ℕ
data_type = 0x0

abbrev pub headers_type : ℕ
headers_type = 0x1

abbrev pub priority_type : ℕ
priority_type = 0x2

-- It goes on, or it gives up the connection.
pub data Scanned : Type 0 where
  goes_on : Connection → Scanned
  gives_up : Connection → Scanned

unfoldable pub give_up : ℕ → Connection → Scanned
unfolding make_goaway_frame
give_up code c = gives_up (record c {
  last_error_code = code;
  outbound_buf = c.outbound_buf ++ make_goaway_frame c.max_remote_stream_id code;
  closed = true;
})

unfoldable pub send_rst : ℕ → ℕ → Connection → Connection
unfolding make_rst_frame
send_rst sid code c = record c { outbound_buf = c.outbound_buf ++ make_rst_frame sid code }

-- The stream that a PRIORITY frame depends on, from the bytes behind its header.
abbrev pub dependency : Bytes → ℕ
dependency bytes = bit_and (be_value 0 (take 4 bytes)) 0x7fff_ffff

abbrev pub scan_priority : FrameHeader → ℕ → Bytes → Connection → Scanned
scan_priority hdr rem bytes c =
    if hdr.stream_id == 0
    then give_up protocol_error c
    else if leb 14 rem && leb 5 hdr.length && dependency bytes == hdr.stream_id
    then goes_on (send_rst hdr.stream_id protocol_error c)
    else goes_on c

abbrev pub completed : Option Stream → Bool
completed none = false
completed (some s) = s.request_complete

abbrev pub is_absent : Option Stream → Bool
is_absent none = true
is_absent (some s) = false

abbrev pub half_closed : ℕ → Connection → Bool
half_closed sid c = contains sid c.closed_stream_ids || completed (find_id sid c.streams)

abbrev pub scan_headers : FrameHeader → Connection → Scanned
scan_headers hdr c =
    if not (hdr.stream_id % 2 == 1)
    then goes_on c
    else if half_closed hdr.stream_id c
    then give_up stream_closed c
    else if is_absent (find_id hdr.stream_id c.streams) && leb hdr.stream_id c.max_remote_stream_id
    then give_up protocol_error c
    else goes_on c

abbrev pub scan_data : FrameHeader → Connection → Scanned
scan_data hdr c =
    goes_on (if half_closed hdr.stream_id c then send_rst hdr.stream_id stream_closed c else c)

-- `rem` bytes are left from the header on, and `bytes` come behind it.
unfoldable pub scan_frame : FrameHeader → ℕ → Bytes → Connection → Scanned
unfolding give_up send_rst contains find_id
scan_frame hdr rem bytes c =
    if hdr.type == priority_type
    then scan_priority hdr rem bytes c
    else if hdr.type == headers_type
    then scan_headers hdr c
    else if hdr.type == data_type
    then scan_data hdr c
    else goes_on c

abbrev pub and_then : Scanned → (Connection → Scanned) → Scanned
and_then (goes_on c) next = next c
and_then (gives_up c) next = gives_up c

-- while (rem >= 9)
unfoldable pub scan_frames : ℕ → Bytes → Connection → Scanned
unfolding decode scan_frame
scan_frames zero p c = goes_on c
scan_frames (suc fuel) p c =
    let hdr = decode p in
    let frame_total : ℕ = 9 + hdr.length in
    if ltb (length p) 9
    then goes_on c
    else and_then (scan_frame hdr (length p) (drop 9 p) c) (λ c'.
      if ltb (length p) frame_total then goes_on c' else scan_frames fuel (drop frame_total p) c')

abbrev pub client_preface : Bytes
client_preface =
    (b'P' ∷ b'R' ∷ b'I' ∷ 32 ∷ b'*' ∷ 32 ∷ b'H' ∷ b'T' ∷ b'T' ∷ b'P' ∷ b'/' ∷ b'2' ∷ b'.' ∷ b'0'
      ∷ 13 ∷ 10 ∷ 13 ∷ 10 ∷ b'S' ∷ b'M' ∷ 13 ∷ 10 ∷ 13 ∷ 10 ∷ [])

abbrev pub skip_preface : Bytes → Bytes
skip_preface p = if leb 24 (length p) && bytes_eq (take 24 p) client_preface then drop 24 p else p

-- The first part of feed_data; each turn of its loop takes nine bytes at least.
unfoldable pub scan : Bytes → Connection → Scanned
unfolding scan_frames bytes_eq
scan p c = scan_frames (suc (length p)) (skip_preface p) c
