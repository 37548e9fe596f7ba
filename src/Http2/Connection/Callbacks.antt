-- ===== src/Http2/Connection/Callbacks.antt =====
-- src/http/v2/Http2Connection.cpp: the functions that nghttp2 calls back while it reads.
use aegon.Base.{
  ℕ, suc, ◌+◌, Bool, true, false, not, ◌||◌, Option, none, some, [], ◌∷◌, ◌++◌, ltb, leb, ◌==◌,
  if◌then◌else◌, length,
}
use aegon.Base.Bytes.{Bytes, bytes_eq}
use aegon.HeaderMap.{add, size}
use aegon.Simd.Check.{validate_h2_h3_header_value}
use aegon.Simd.Find.{starts_with}
use aegon.Simd.Search.{index_of}
use aegon.Http1.Text.{string_to_method}
use aegon.Http1.Line.{Limits}
use aegon.Http1.Fields.{is_some}
use aegon.Http2.Frame.{make_rst_frame}
use aegon.Protocol.{
  StatusCode, or_status, payload_too_large, header_fields_too_large, parse_path_header,
  validate_request_header,
}
use aegon.Http2.Connection.{
  Stream, Connection, Setup, Inbound, new_stream, rst_stream, terminate_session, goaway,
  protocol_error, flow_control_error, stream_closed, frame_size_error, enhance_your_calm, contains,
  erase, insert_id, find_id, erase_id, get_or_create_stream, put_stream, reset_stream, call,
}

-- 0, NGHTTP2_ERR_TEMPORAL_CALLBACK_FAILURE and NGHTTP2_ERR_CALLBACK_FAILURE.
pub data CallbackResult : Type 0 where
  success temporal_failure failure : CallbackResult

abbrev pub Outcome : Type 0
Outcome = CallbackResult × Connection

unfoldable pub add_header : Bytes → Bytes → Stream → Stream
unfolding add
add_header n v s = record s { headers = add n v s.headers }

-- The limits on the header section, before the field is read.
unfoldable pub count_header : Limits → Bytes → Bytes → Stream → Stream
count_header limits n v s =
    let total : ℕ = s.headers_total_size + (length n + length v) in
    record s {
      headers_total_size = total;
      error_status =
          or_status
            (ltb limits.max_headers_size total || leb limits.max_header_count (size s.headers))
            header_fields_too_large s.error_status;
    }

abbrev pub set_path : Option (Bytes × Bytes × StatusCode) → Stream → Option Stream
set_path none s = none
set_path (some (p, q, status)) s = some (record s { path = p; query = q; error_status = status })

abbrev pub set_header : Bytes → Bytes → Option StatusCode → Stream → Option Stream
set_header n v none s = none
set_header n v (some status) s = some (add_header n v (record s { error_status = status }))

abbrev pub method_name : Bytes
method_name = (b':' ∷ b'm' ∷ b'e' ∷ b't' ∷ b'h' ∷ b'o' ∷ b'd' ∷ [])

abbrev pub path_name : Bytes
path_name = (b':' ∷ b'p' ∷ b'a' ∷ b't' ∷ b'h' ∷ [])

abbrev pub authority_name : Bytes
authority_name = (b':' ∷ b'a' ∷ b'u' ∷ b't' ∷ b'h' ∷ b'o' ∷ b'r' ∷ b'i' ∷ b't' ∷ b'y' ∷ [])

abbrev pub host_name : Bytes
host_name = (b'H' ∷ b'o' ∷ b's' ∷ b't' ∷ [])

-- By the field's name; `none` is a temporal failure.
unfoldable pub read_header : Setup → Bytes → Bytes → Stream → Option Stream
unfolding validate_h2_h3_header_value bytes_eq string_to_method parse_path_header index_of
    add_header starts_with validate_request_header
read_header cfg n v s =
    if not (validate_h2_h3_header_value cfg.target v)
    then none
    else if bytes_eq n method_name
    then some (record s { method = string_to_method v })
    else if bytes_eq n path_name
    then set_path (parse_path_header cfg.target cfg.limits.max_uri_length v s.method s.error_status)
        s
    else if bytes_eq n authority_name
    then (if is_some (index_of (b'@' ∷ []) 0 v) then none else some (add_header host_name v s))
    else if starts_with (b':' ∷ []) n
    then some s
    else set_header n v (validate_request_header cfg.limits.max_body_size n v s.error_status) s

abbrev pub put_read : ℕ → Stream → Option Stream → Connection → Outcome
put_read sid counted none c = (temporal_failure, put_stream sid counted c)
put_read sid counted (some s) c = (success, put_stream sid s c)

unfoldable pub header_of_stream : Setup → ℕ → Bytes → Bytes → Stream → Connection → Outcome
unfolding put_stream count_header read_header
header_of_stream cfg sid n v s c =
    let counted = count_header cfg.limits n v s in
    if s.request_complete
    then (
      success,
      call (rst_stream sid stream_closed) (put_stream sid (record s { reset = true }) c),
    )
    else put_read sid counted (read_header cfg n v counted) c

-- `is_request`: the frame is HEADERS, of category REQUEST.
unfoldable pub on_header : Setup → Bool → ℕ → Bytes → Bytes → Connection → Outcome
unfolding contains find_id header_of_stream
on_header cfg is_request sid n v c =
    if not is_request
    then (success, c)
    else if contains sid c.closed_stream_ids
    then (success, call (rst_stream sid stream_closed) c)
    else elim (find_id sid c.streams) [
      | none ↦
          if leb sid c.max_remote_stream_id
          then (failure, call (terminate_session protocol_error) (record c { closed = true }))
          else header_of_stream cfg sid n v new_stream (record c { max_remote_stream_id = sid })
      | some s ↦ header_of_stream cfg sid n v s c
    ]

-- The data of a stream that is not streamed to its handler.
unfoldable pub append_body : ℕ → Bytes → Stream → Stream
append_body max_body_size chunk s =
    if ltb max_body_size (length s.body_accum + length chunk)
    then record s { error_status = or_status true payload_too_large s.error_status }
    else record s { body_accum = s.body_accum ++ chunk }

unfoldable pub on_data_chunk_recv : Setup → ℕ → Bytes → Connection → Connection
unfolding contains get_or_create_stream put_stream append_body
on_data_chunk_recv cfg sid chunk c =
    let s = get_or_create_stream sid c in
    if contains sid c.closed_stream_ids
    then call (rst_stream sid stream_closed) c
    else elim s.grpc_inbound [
      | some inbound ↦
          put_stream sid
            (record s { grpc_inbound = some (record inbound { pushed = inbound.pushed ++ chunk }) })
            c
      | none ↦
          if s.request_complete
          then call (rst_stream sid stream_closed) (put_stream sid (record s { reset = true }) c)
          else put_stream sid (append_body cfg.limits.max_body_size chunk s) c
    ]

-- The frames that on_frame_recv looks at, with their stream; a dependency is a stream too.
pub data Frame : Type 0 where
  headers_frame : ℕ → Bool → Option ℕ → Frame
  data_frame : ℕ → Bool → Frame
  priority_frame : ℕ → ℕ → Frame
  rst_stream_frame : ℕ → Frame
  goaway_frame : Frame
  other_frame : Frame

abbrev pub depends_on : ℕ → Option ℕ → Bool
depends_on sid none = false
depends_on sid (some dep) = dep == sid

-- A stream that depends on itself.
unfoldable pub refuse_dependency : ℕ → Connection → Connection
unfolding reset_stream
refuse_dependency sid c = reset_stream sid (call (rst_stream sid protocol_error) c)

abbrev pub set_eof : Inbound → Stream → Stream
set_eof inbound s = record s { grpc_inbound = some (record inbound { eof = true }) }

abbrev pub push_pending : ℕ → Connection → Connection
push_pending sid c = record c { pending_dispatch = c.pending_dispatch ++ (sid ∷ []) }

abbrev pub start_streaming : Bool → Stream → Stream
start_streaming eof s = record s {
  grpc_inbound = some (record { pushed = []; eof = eof });
  is_grpc_stream = true;
}

-- END_STREAM on HEADERS.
unfoldable pub end_headers : Setup → ℕ → Connection → Connection
unfolding get_or_create_stream put_stream
end_headers cfg sid c =
    let s = get_or_create_stream sid c in
    elim s.grpc_inbound [
      | some inbound ↦ put_stream sid (set_eof inbound s) c
      | none ↦
          let s' = if cfg.is_streaming s.method s.path then start_streaming true s else s in
          push_pending sid (put_stream sid (record s' { request_complete = true }) c)
    ]

unfoldable pub open_headers : Setup → ℕ → Connection → Connection
unfolding get_or_create_stream put_stream
open_headers cfg sid c =
    let s = get_or_create_stream sid c in
    if cfg.is_streaming s.method s.path
    then push_pending sid (put_stream sid (start_streaming false s) c)
    else put_stream sid s c

unfoldable pub end_data : ℕ → Connection → Connection
unfolding get_or_create_stream put_stream
end_data sid c =
    let s = get_or_create_stream sid c in
    elim s.grpc_inbound [
      | some inbound ↦ put_stream sid (set_eof inbound s) c
      | none ↦ push_pending sid (put_stream sid (record s { request_complete = true }) c)
    ]

unfoldable pub count_reset : Setup → ℕ → Connection → Outcome
unfolding reset_stream
count_reset cfg sid c =
    let c' = record (reset_stream sid c) { rst_count = suc c.rst_count } in
    if ltb cfg.rst_burst_limit (suc c.rst_count)
    then (failure, record (call (goaway sid enhance_your_calm) c') { closed = true })
    else (success, c')

unfoldable pub on_frame_recv : Setup → Frame → Connection → Outcome
unfolding refuse_dependency end_headers open_headers end_data count_reset
on_frame_recv cfg (headers_frame sid end_stream dep) c =
    let c' = if depends_on sid dep then refuse_dependency sid c else c in
    (success, if end_stream then end_headers cfg sid c' else open_headers cfg sid c')
on_frame_recv cfg (data_frame sid end_stream) c =
    (success, if end_stream then end_data sid c else c)
on_frame_recv cfg (priority_frame sid dep) c =
    if sid == 0
    then (success, record (call (terminate_session protocol_error) c) { closed = true })
    else (success, if dep == sid then refuse_dependency sid c else c)
on_frame_recv cfg (rst_stream_frame sid) c = count_reset cfg sid c
on_frame_recv cfg goaway_frame c = (success, record c { closed = true })
on_frame_recv cfg other_frame c = (success, c)

abbrev pub on_frame_send : Frame → Connection → Connection
on_frame_send goaway_frame c = record c { closed = true }
on_frame_send _ c = c

-- lib_error_code, as far as it is told apart.
pub data LibError : Type 0 where
  err_stream_closed err_flow_control err_frame_size err_other : LibError

abbrev pub error_code_of : LibError → ℕ
error_code_of err_stream_closed = stream_closed
error_code_of err_flow_control = flow_control_error
error_code_of err_frame_size = frame_size_error
error_code_of err_other = protocol_error

abbrev pub terminate : ℕ → Connection → Connection
terminate code c = record (call (terminate_session code) c) { closed = true }

unfoldable pub on_invalid_frame_recv : Setup → ℕ → LibError → Connection → Connection
unfolding reset_stream make_rst_frame
on_invalid_frame_recv cfg sid e c =
    let code : ℕ = error_code_of e in
    let c' = reset_stream sid (record c { last_error_code = code }) in
    let c'' =
      if code == flow_control_error
      then record c' { outbound_buf = c'.outbound_buf ++ make_rst_frame sid flow_control_error }
      else c' in
    if sid == 0
    then terminate code (record c { last_error_code = code })
    else if cfg.submit_rst_fails sid
    then terminate code (call (rst_stream sid code) c'')
    else call (rst_stream sid code) c''

unfoldable pub on_stream_close : Setup → ℕ → Connection → Connection
unfolding contains erase erase_id
on_stream_close cfg sid c =
    let ids = insert_id sid c.closed_stream_ids in
    record c {
      closed_stream_ids = if ltb 1024 (length ids) then erase (cfg.begin ids) ids else ids;
      streams = erase_id sid c.streams;
    }
