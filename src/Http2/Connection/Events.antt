-- ===== src/Http2/Connection/Events.antt =====
-- src/http/v2/Http2Connection.cpp: what happens to a connection, in any order: a callback of nghttp2
-- or a round of dispatch.
use aegon.Base.{ℕ, Bool, List, [], ◌∷◌}
use aegon.Base.Bytes.{Bytes}
use aegon.Http2.Connection.{Stream, Connection, Setup}
use aegon.Http2.Connection.Callbacks.{
  Frame, LibError, on_header, on_data_chunk_recv, on_frame_recv, on_frame_send,
  on_invalid_frame_recv, on_stream_close,
}
use aegon.Http2.Connection.Dispatch.{Handled, dispatch_pending_requests}

pub data Event : Type 0 where
  header : Bool → ℕ → Bytes → Bytes → Event
  data_chunk : ℕ → Bytes → Event
  frame_recv frame_send : Frame → Event
  invalid_frame : ℕ → LibError → Event
  stream_close : ℕ → Event
  dispatch_pending : Event

module _ (cfg : Setup) (respond : Stream → Handled) where
  unfoldable pub step : Event → Connection → Connection
  unfolding on_header on_data_chunk_recv on_frame_recv on_invalid_frame_recv on_stream_close
      dispatch_pending_requests
  step (header is_request sid n v) c = (on_header cfg is_request sid n v c).1
  step (data_chunk sid chunk) c = on_data_chunk_recv cfg sid chunk c
  step (frame_recv frame) c = (on_frame_recv cfg frame c).1
  step (frame_send frame) c = on_frame_send frame c
  step (invalid_frame sid e) c = on_invalid_frame_recv cfg sid e c
  step (stream_close sid) c = on_stream_close cfg sid c
  step dispatch_pending c = dispatch_pending_requests respond c

  unfoldable pub run : List Event → Connection → Connection
  unfolding step
  run [] c = c
  run (e ∷ es) c = run es (step e c)
