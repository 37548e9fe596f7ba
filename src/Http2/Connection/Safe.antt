-- ===== src/Http2/Connection/Safe.antt =====
-- src/http/v2/Http2Connection.cpp: the bounds of a connection through its events.
use aegon.Base.{
  if_both, ℕ, suc, ◌≡◌, true, not, ◌||◌, List, [], ◌∷◌, ◌++◌, ltb, ◌==◌, arith, if◌then◌else◌,
  Option-cases, Bool-cases, inl, inr,
}
use aegon.Protocol.{is_ok}
use aegon.Http2.Frame.{make_rst_frame}
use aegon.Http2.Connection.{
  run_handler, submit_response, flow_control_error, Stream, Connection, Setup, contains, find_id,
  reset_stream, call,
}
use aegon.Http2.Connection.Callbacks.{
  headers_frame, data_frame, priority_frame, rst_stream_frame, goaway_frame, other_frame,
  depends_on, error_code_of, Frame, LibError, refuse_dependency, count_reset, on_frame_recv,
  on_frame_send, on_invalid_frame_recv, on_stream_close,
}
use aegon.Http2.Connection.Dispatch.{
  trailers_only, event_stream, complete, submit_once, Handled, after_handler, handle,
  dispatch_stream, dispatch_id, dispatch_each, dispatch_pending_requests,
}
use aegon.Http2.Connection.Bounded.{
  erase_id-Each, find_id-Each, IsStream, IsBounded, put_stream-IsBounded, reset_stream-IsBounded,
  length-erase,
}
use aegon.Http2.Connection.Events.{
  Event, header, data_chunk, frame_recv, frame_send, invalid_frame, stream_close, dispatch_pending,
  step, run,
}
use aegon.Http2.Connection.Keeps.{
  Leaves, on_header-IsBounded, on_data_chunk_recv-IsBounded, refuse_dependency-IsBounded,
  end_headers-IsBounded, open_headers-IsBounded, end_data-IsBounded,
}

abbrev with_frame : Frame → ℕ → ℕ
with_frame (rst_stream_frame sid) k = suc k
with_frame (headers_frame sid end_stream dep) k = k
with_frame (data_frame sid end_stream) k = k
with_frame (priority_frame sid dep) k = k
with_frame goaway_frame k = k
with_frame other_frame k = k

-- The number of RST_STREAM frames received, after one event more.
abbrev pub with_event : Event → ℕ → ℕ
with_event (frame_recv frame) k = with_frame frame k
with_event (header is_request sid n v) k = k
with_event (data_chunk sid chunk) k = k
with_event (frame_send frame) k = k
with_event (invalid_frame sid e) k = k
with_event (stream_close sid) k = k
with_event dispatch_pending k = k

module _ (cfg : Setup) (k : ℕ) where
  close-IsBounded :
      (c : Connection) → IsBounded cfg k c → IsBounded cfg k (record c { closed = true })
  close-IsBounded c h = record {
    each = h.each;
    ids = h.ids;
    counted = h.counted;
    resets = λ f. absurd (ground (arith, f));
  }

  count_reset-IsBounded :
      (sid : ℕ) (c : Connection) → IsBounded cfg k c → Leaves cfg (suc k) (count_reset cfg sid c)
  unfolding count_reset
  count_reset-IsBounded sid c h =
      let r = reset_stream-IsBounded cfg k sid c h in
      elim (Bool-cases (ltb cfg.rst_burst_limit (suc c.rst_count))) [
        | inl e ↦
            rw (e, count_reset)
              record {
                each = r.each;
                ids = r.ids;
                counted = omega (arith, r.counted);
                resets = λ f. absurd (ground (arith, f));
              }
        | inr e ↦
            rw (e, count_reset)
              record {
                each = r.each;
                ids = r.ids;
                counted = omega (arith, r.counted);
                resets = λ f. ground (arith, e, r.counted);
              }
      ]

  on_frame_recv-IsBounded :
      (frame : Frame) (c : Connection)
      → IsBounded cfg k c
      → Leaves cfg (with_frame frame k) (on_frame_recv cfg frame c)
  unfolding on_frame_recv
  on_frame_recv-IsBounded (headers_frame sid end_stream dep) c h =
      let c' = if depends_on sid dep then refuse_dependency sid c else c in
      let h' =
        if_both (IsBounded cfg k) (depends_on sid dep) _ c
          (refuse_dependency-IsBounded cfg k sid c h) h in
      if_both (IsBounded cfg k) end_stream _ _ (end_headers-IsBounded cfg k sid c' h')
        (open_headers-IsBounded cfg k sid c' h')
  on_frame_recv-IsBounded (data_frame sid end_stream) c h =
      if_both (IsBounded cfg k) end_stream _ _ (end_data-IsBounded cfg k sid c h) h
  on_frame_recv-IsBounded (priority_frame sid dep) c h =
      if_both (Leaves cfg k) (sid == 0) _ _ (close-IsBounded c h)
        (if_both (IsBounded cfg k) (dep == sid) _ _ (refuse_dependency-IsBounded cfg k sid c h) h)
  on_frame_recv-IsBounded (rst_stream_frame sid) c h = count_reset-IsBounded sid c h
  on_frame_recv-IsBounded goaway_frame c h = close-IsBounded c h
  on_frame_recv-IsBounded other_frame c h = h

  on_frame_send-IsBounded :
      (frame : Frame) (c : Connection) → IsBounded cfg k c → IsBounded cfg k (on_frame_send frame c)
  on_frame_send-IsBounded (headers_frame sid end_stream dep) c h = h
  on_frame_send-IsBounded (data_frame sid end_stream) c h = h
  on_frame_send-IsBounded (priority_frame sid dep) c h = h
  on_frame_send-IsBounded (rst_stream_frame sid) c h = h
  on_frame_send-IsBounded goaway_frame c h = close-IsBounded c h
  on_frame_send-IsBounded other_frame c h = h

  on_invalid_frame_recv-IsBounded :
      (sid : ℕ) (e : LibError) (c : Connection)
      → IsBounded cfg k c
      → IsBounded cfg k (on_invalid_frame_recv cfg sid e c)
  unfolding on_invalid_frame_recv
  on_invalid_frame_recv-IsBounded sid e c h =
      let c' = reset_stream sid (record c { last_error_code = error_code_of e }) in
      let r = reset_stream-IsBounded cfg k sid (record c { last_error_code = error_code_of e }) h in
      let refused = record c' {
        outbound_buf = c'.outbound_buf ++ make_rst_frame sid flow_control_error;
      } in
      let is_flow = error_code_of e == flow_control_error in
      let r' = if_both (IsBounded cfg k) is_flow refused c' r r in
      if_both (IsBounded cfg k) (sid == 0) _ _ (close-IsBounded c h) (
        if_both (IsBounded cfg k) (cfg.submit_rst_fails sid) _ _
          (close-IsBounded (if is_flow then refused else c') r') r')

  on_stream_close-IsBounded :
      (sid : ℕ) (c : Connection)
      → ((i : ℕ) (js : List ℕ) → contains (cfg.begin (i ∷ js)) (i ∷ js) ≡ true)
      → IsBounded cfg k c
      → IsBounded cfg k (on_stream_close cfg sid c)
  unfolding on_stream_close
  on_stream_close-IsBounded sid c member h = record {
    each = erase_id-Each (IsStream cfg.limits) sid c.streams h.each;
    ids = elim (Bool-cases (contains sid c.closed_stream_ids)) [
      | inl e ↦ ground (arith, e, h.ids)
      | inr e ↦ ground (
        arith,
        e,
        h.ids,
        length-erase (cfg.begin (sid ∷ c.closed_stream_ids)) (sid ∷ c.closed_stream_ids)
            (member sid c.closed_stream_ids),
      )
    ];
    counted = h.counted;
    resets = h.resets;
  }

  submit_once-IsBounded :
      (sid status : ℕ) (s : Stream) (c : Connection)
      → IsStream cfg.limits s
      → IsBounded cfg k c
      → IsBounded cfg k (submit_once sid status s c)
  submit_once-IsBounded sid status s c p h =
      if_both (IsBounded cfg k) s.response_submitted _ _ (put_stream-IsBounded cfg k sid s c p h)
        (put_stream-IsBounded cfg k sid (record s { response_submitted = true }) c p h)

  after_handler-IsBounded :
      (sid : ℕ) (handled : Handled) (s : Stream) (c : Connection)
      → IsStream cfg.limits s
      → IsBounded cfg k c
      → IsBounded cfg k (after_handler sid handled s c)
  unfolding after_handler
  after_handler-IsBounded sid handled s c p h =
      let once = submit_once-IsBounded sid handled.status s c p h in
      elim handled.reply
        as (λ r. IsBounded cfg k (after_handler sid (record handled { reply = r }) s c)) [
          | trailers_only ↦ once
          | event_stream ↦ once
          | complete ↦
              if_both (IsBounded cfg k) s.is_grpc_stream _ _ once
                (put_stream-IsBounded cfg k sid (record s { response_submitted = true }) c p h)
        ]

  handle-IsBounded :
      (respond : Stream → Handled) (sid : ℕ) (s : Stream) (c : Connection)
      → IsStream cfg.limits s
      → IsBounded cfg k c
      → IsBounded cfg k (handle respond sid s c)
  unfolding handle
  handle-IsBounded respond sid s c p h =
      let ran = call (run_handler sid s.body_accum) c in
      if_both (IsBounded cfg k) (respond s).pushed_frame _ _
        (after_handler-IsBounded sid (respond s) (record s { response_submitted = true })
          (call (submit_response sid (respond s).status) ran) p h)
        (after_handler-IsBounded sid (respond s) s ran p h)

  dispatch_stream-IsBounded :
      (respond : Stream → Handled) (sid : ℕ) (s : Stream) (c : Connection)
      → IsStream cfg.limits s
      → IsBounded cfg k c
      → IsBounded cfg k (dispatch_stream respond sid s c)
  unfolding dispatch_stream
  dispatch_stream-IsBounded respond sid s c p h =
      let s' = record s { dispatched = true } in
      if_both (IsBounded cfg k) (s.reset || s.response_submitted || s.dispatched) _ _ h (
        if_both (IsBounded cfg k) (not (is_ok s.error_status)) _ _
          (put_stream-IsBounded cfg k sid (record s' { response_submitted = true }) c p h)
          (handle-IsBounded respond sid s' c p h))

  dispatch_id-IsBounded :
      (respond : Stream → Handled) (sid : ℕ) (c : Connection)
      → IsBounded cfg k c
      → IsBounded cfg k (dispatch_id respond sid c)
  unfolding dispatch_id
  dispatch_id-IsBounded respond sid c h =
      if_both (IsBounded cfg k) (contains sid c.closed_stream_ids) _ _ h
        (elim (Option-cases (find_id sid c.streams)) [
          | inl e ↦ rw e h
          | inr (s, e) ↦
              let p = find_id-Each (IsStream cfg.limits) sid c.streams s h.each e in
              rw e (dispatch_stream-IsBounded respond sid s c p h)
        ])

  dispatch_each-IsBounded :
      (respond : Stream → Handled) (ready : List ℕ) (c : Connection)
      → IsBounded cfg k c
      → IsBounded cfg k (dispatch_each respond ready c)
  unfolding dispatch_each
  dispatch_each-IsBounded respond [] c h = h
  dispatch_each-IsBounded respond (sid ∷ ready) c h =
      dispatch_each-IsBounded respond ready (dispatch_id respond sid c)
        (dispatch_id-IsBounded respond sid c h)

  step-IsBounded :
      (respond : Stream → Handled) (e : Event) (c : Connection)
      → ((i : ℕ) (js : List ℕ) → contains (cfg.begin (i ∷ js)) (i ∷ js) ≡ true)
      → IsBounded cfg k c
      → IsBounded cfg (with_event e k) (step cfg respond e c)
  unfolding step dispatch_pending_requests
  step-IsBounded respond (header is_request sid n v) c member h =
      on_header-IsBounded cfg k is_request sid n v c h
  step-IsBounded respond (data_chunk sid chunk) c member h =
      on_data_chunk_recv-IsBounded cfg k sid chunk c h
  step-IsBounded respond (frame_recv frame) c member h = on_frame_recv-IsBounded frame c h
  step-IsBounded respond (frame_send frame) c member h = on_frame_send-IsBounded frame c h
  step-IsBounded respond (invalid_frame sid e) c member h =
      on_invalid_frame_recv-IsBounded sid e c h
  step-IsBounded respond (stream_close sid) c member h = on_stream_close-IsBounded sid c member h
  step-IsBounded respond dispatch_pending c member h =
      dispatch_each-IsBounded respond c.pending_dispatch (record c { pending_dispatch = [] }) h

-- The RST_STREAM frames of a run, after `k` others.
abbrev pub resets_received : List Event → ℕ → ℕ
resets_received [] k = k
resets_received (e ∷ es) k = resets_received es (with_event e k)

-- From a connection within its bounds that has received `k` RST_STREAM frames, in any run of events:
-- each stream keeps its body within max_body_size, the flags of its header map valid, and an error
-- status once its header section passes max_headers_size, of which the names and the values in the
-- header map are a part; at most 1024 closed streams are remembered; rst_count is the number of
-- RST_STREAM frames received, and a connection that is not closed has received at most
-- rst_burst_limit; when `begin` of a set that is not empty is one of its elements.
pub run-IsBounded :
    (cfg : Setup) (respond : Stream → Handled) (es : List Event) (k : ℕ) (c : Connection)
    → ((i : ℕ) (js : List ℕ) → contains (cfg.begin (i ∷ js)) (i ∷ js) ≡ true)
    → IsBounded cfg k c
    → IsBounded cfg (resets_received es k) (run cfg respond es c)
unfolding run
run-IsBounded cfg respond [] k c member h = h
run-IsBounded cfg respond (e ∷ es) k c member h =
    run-IsBounded cfg respond es (with_event e k) (step cfg respond e c) member
      (step-IsBounded cfg k respond e c member h)
