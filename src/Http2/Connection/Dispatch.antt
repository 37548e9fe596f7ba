-- ===== src/Http2/Connection/Dispatch.antt =====
-- src/http/v2/Http2Connection.cpp: dispatch_pending_requests. What a handler does is a parameter.
use aegon.Base.{ℕ, Bool, true, not, ◌||◌, none, some, List, [], ◌∷◌, if◌then◌else◌}
use aegon.Protocol.{
  StatusCode, ok, payload_too_large, uri_too_long, expectation_failed, header_fields_too_large,
  is_ok,
}
use aegon.Http2.Connection.{
  Stream, Connection, run_handler, submit_response, resume_data, contains, find_id, put_stream,
  call,
}

-- What the response says after the handler, in the order of the tests.
pub data Reply : Type 0 where
  trailers_only : Reply
  event_stream : Reply
  complete : Reply

-- What a handler did: whether it pushed a frame, which submits the headers, and its response.
pub record Handled : Type 0 where
  pub pushed_frame : Bool
  pub status : ℕ
  pub reply : Reply

abbrev pub status_number : StatusCode → ℕ
status_number ok = 200
status_number payload_too_large = 413
status_number uri_too_long = 414
status_number expectation_failed = 417
status_number header_fields_too_large = 431

abbrev pub submitted : ℕ → ℕ → Stream → Connection → Connection
submitted sid status s c =
    call (submit_response sid status) (put_stream sid (record s { response_submitted = true }) c)

-- if (!stream->response_submitted) submit…
abbrev pub submit_once : ℕ → ℕ → Stream → Connection → Connection
submit_once sid status s c =
    if s.response_submitted then put_stream sid s c else submitted sid status s c

unfoldable pub after_handler : ℕ → Handled → Stream → Connection → Connection
unfolding put_stream
after_handler sid h s c = elim h.reply [
  | trailers_only ↦ submit_once sid h.status s c
  | event_stream ↦ call (resume_data sid) (submit_once sid h.status s c)
  | complete ↦
      if s.is_grpc_stream
      then call (resume_data sid) (submit_once sid h.status s c)
      else submitted sid h.status s c
]

-- The handler runs on the stream and its body; a frame that it pushes submits the headers.
unfoldable pub handle : (Stream → Handled) → ℕ → Stream → Connection → Connection
unfolding after_handler put_stream
handle respond sid s c =
    let h = respond s in
    let ran = call (run_handler sid s.body_accum) c in
    if h.pushed_frame
    then after_handler sid h (record s { response_submitted = true })
        (call (submit_response sid h.status) ran)
    else after_handler sid h s ran

unfoldable pub dispatch_stream : (Stream → Handled) → ℕ → Stream → Connection → Connection
unfolding handle put_stream
dispatch_stream respond sid s c =
    let s' = record s { dispatched = true } in
    if s.reset || s.response_submitted || s.dispatched
    then c
    else if not (is_ok s.error_status)
    then submitted sid (status_number s.error_status) s' c
    else handle respond sid s' c

unfoldable pub dispatch_id : (Stream → Handled) → ℕ → Connection → Connection
unfolding contains find_id dispatch_stream
dispatch_id respond sid c =
    if contains sid c.closed_stream_ids
    then c
    else elim (find_id sid c.streams) [ none ↦ c | some s ↦ dispatch_stream respond sid s c ]

-- for (int32_t sid : ready)
unfoldable pub dispatch_each : (Stream → Handled) → List ℕ → Connection → Connection
unfolding dispatch_id
dispatch_each respond [] c = c
dispatch_each respond (sid ∷ ready) c = dispatch_each respond ready (dispatch_id respond sid c)

unfoldable pub dispatch_pending_requests : (Stream → Handled) → Connection → Connection
unfolding dispatch_each
dispatch_pending_requests respond c =
    dispatch_each respond c.pending_dispatch (record c { pending_dispatch = [] })
