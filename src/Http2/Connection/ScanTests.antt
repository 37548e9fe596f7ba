-- ===== src/Http2/Connection/ScanTests.antt =====
-- The scan of small reads.
use aegon.Base.{◌≡◌, refl, Bool, true, false, List, [], ◌∷◌, ◌++◌, arith, take, drop}
use aegon.Base.Bytes.{bytes_eq}
use aegon.Http2.Frame.{encode}
use aegon.Http2.Connection.{Connection, new_connection, new_stream}
use aegon.Http2.Connection.Scan.{Scanned, goes_on, gives_up, scan, client_preface}
use aegon.Http2.Connection.Whole.{Frame, wire, scan_each, scan-wire}

-- Stream 1 has its request, so that more data for it is refused.
abbrev half_closed_one : Connection
half_closed_one = record new_connection {
  streams = (1, record new_stream { request_complete = true }) ∷ [];
  max_remote_stream_id = 1;
}

-- DATA on stream 3 and a PRIORITY frame that depends on its own stream.
abbrev two_frames : List Frame
two_frames =
    (
      record { length = 11; type = 0; flags = 0; stream_id = 3 },
      9 ∷ 9 ∷ 0 ∷ 0 ∷ 5 ∷ 2 ∷ 0 ∷ 0 ∷ 0 ∷ 0 ∷ 0 ∷ [],
    )
    ∷ (record { length = 5; type = 2; flags = 0; stream_id = 3 }, 0 ∷ 0 ∷ 0 ∷ 3 ∷ 1 ∷ [])
    ∷ []

abbrev went_on : Scanned → Bool
went_on (goes_on c) = true
went_on (gives_up c) = false

scan-wire_example :
    (scan (client_preface ++ wire two_frames) half_closed_one
      ≡ scan_each two_frames half_closed_one)
    × (scan (wire two_frames) half_closed_one ≡ scan_each two_frames half_closed_one)
scan-wire_example =
    scan-wire two_frames half_closed_one
      (
        record { payload = refl; length_width = omega arith; stream_width = omega arith },
        (record { payload = refl; length_width = omega arith; stream_width = omega arith }, tt),
      )
      (unfold encode bytes_eq in refl)

two_frames_pass : went_on (scan (wire two_frames) half_closed_one) ≡ true
unfolding scan encode
two_frames_pass = refl

-- The same bytes in two reads, cut inside the DATA frame: what comes first in the second read is
-- taken for a PRIORITY frame on stream 0.
first_read_passes : went_on (scan (take 11 (wire two_frames)) half_closed_one) ≡ true
unfolding scan encode
first_read_passes = refl

split_frame_refused : went_on (scan (drop 11 (wire two_frames)) half_closed_one) ≡ false
unfolding scan encode
split_frame_refused = refl
