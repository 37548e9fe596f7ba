-- ===== src/Http2/Connection/Body.antt =====
-- src/http/v2/Http2Connection.cpp: a request's body, from its DATA frames to its handler.
use mathlib.Core.List.{append-nil, append_assoc}
use aegon.Base.{
  ℕ, ◌≡◌, ◌≤◌, ◌+◌, refl, ap, true, false, ◌||◌, none, some, List, [], ◌∷◌, ◌++◌, ◌∙◌, arith,
  if◌then◌else◌, length, length-append, leb, ltb, Bool-cases, inl, inr,
}
use aegon.Base.Bytes.{Bytes}
use aegon.Protocol.{is_ok}
use aegon.Http2.Connection.{
  Stream, Connection, Setup, contains, find_id, put_stream, get_or_create_stream,
}
use aegon.Http2.Connection.Callbacks.{
  append_body, on_data_chunk_recv, data_frame, push_pending, end_data, on_frame_recv,
}
use aegon.Http2.Connection.Dispatch.{Handled, dispatch_pending_requests}
use aegon.Http2.Connection.Events.{Event, data_chunk, frame_recv, dispatch_pending, step, run}
use aegon.Http2.Connection.Runs.{handler_runs, body_to_run, find_id-put_id}
use aegon.Http2.Connection.Once.{handler_runs-dispatch_pending_requests, to_run-found}

abbrev pub join_chunks : List Bytes → Bytes
join_chunks [] = []
join_chunks (chunk ∷ chunks) = chunk ++ join_chunks chunks

-- A stream that takes data and has not been looked at yet.
pub record IsTaking (s : Stream) : Type 0 where
  pub direct : s.grpc_inbound ≡ none
  pub incomplete : s.request_complete ≡ false
  pub fresh : (s.reset || s.response_submitted || s.dispatched) ≡ false

abbrev take_chunks : ℕ → List Bytes → Stream → Stream
take_chunks limit [] s = s
take_chunks limit (chunk ∷ chunks) s = take_chunks limit chunks (append_body limit chunk s)

append_body-IsTaking :
    (limit : ℕ) (chunk : Bytes) (s : Stream) → IsTaking s → IsTaking (append_body limit chunk s)
unfolding append_body
append_body-IsTaking limit chunk s h =
    elim (Bool-cases (ltb limit (length s.body_accum + length chunk))) [
      | inl e ↦ rw e record { direct = h.direct; incomplete = h.incomplete; fresh = h.fresh }
      | inr e ↦ rw e record { direct = h.direct; incomplete = h.incomplete; fresh = h.fresh }
    ]

take_chunks-IsTaking :
    (limit : ℕ) (chunks : List Bytes) (s : Stream)
    → IsTaking s
    → IsTaking (take_chunks limit chunks s)
take_chunks-IsTaking limit [] s h = h
take_chunks-IsTaking limit (chunk ∷ chunks) s h =
    take_chunks-IsTaking limit chunks (append_body limit chunk s)
      (append_body-IsTaking limit chunk s h)

-- An error stays, whatever follows.
take_chunks_error :
    (limit : ℕ) (chunks : List Bytes) (s : Stream)
    → is_ok s.error_status ≡ false
    → is_ok (take_chunks limit chunks s).error_status ≡ false
unfolding append_body
take_chunks_error limit [] s e = e
take_chunks_error limit (chunk ∷ chunks) s e =
    take_chunks_error limit chunks (append_body limit chunk s)
      (elim (Bool-cases (ltb limit (length s.body_accum + length chunk))) [
        | inl t ↦ rw t (ground (arith, e))
        | inr t ↦ rw t e
      ])

-- What the handler is to get: the whole body if it is within the limit, and nothing otherwise.
abbrev pub whole_body : ℕ → Bytes → List Bytes
whole_body limit body = if leb (length body) limit then body ∷ [] else []

abbrev accepted : Stream → List Bytes
accepted s = if is_ok s.error_status then s.body_accum ∷ [] else []

accepted-take_chunks :
    (limit : ℕ) (chunks : List Bytes) (s : Stream)
    → is_ok s.error_status ≡ true
    → length s.body_accum ≤ limit
    → accepted (take_chunks limit chunks s) ≡ whole_body limit (s.body_accum ++ join_chunks chunks)
unfolding append_body
accepted-take_chunks limit [] s e h = rw (e, append-nil s.body_accum) (ground (arith, h))
accepted-take_chunks limit (chunk ∷ chunks) s e h =
    elim (Bool-cases (ltb limit (length s.body_accum + length chunk))) [
      | inl t ↦
          let error =
            take_chunks_error limit chunks (append_body limit chunk s) (rw t (ground (arith, e))) in
          rw error (
            ground (
              arith,
              t,
              length-append s.body_accum (chunk ++ join_chunks chunks),
              length-append chunk (join_chunks chunks),
            ))
      | inr t ↦
          let s' = record s { body_accum = s.body_accum ++ chunk } in
          let small : length (s.body_accum ++ chunk) ≤ limit =
            ground (arith, t, length-append s.body_accum chunk) in
          let taken : append_body limit chunk s ≡ s' = rw t refl in
          ap (λ x. accepted (take_chunks limit chunks x)) taken
          ∙ (accepted-take_chunks limit chunks s' e small
              ∙ ap (whole_body limit) (append_assoc s.body_accum chunk (join_chunks chunks)))
    ]

contains_last : (i : ℕ) (js : List ℕ) → contains i (js ++ (i ∷ [])) ≡ true
unfolding contains
contains_last i [] = ground arith
contains_last i (j ∷ js) = ground (arith, contains_last i js)

-- The stream of `sid` is `s`, and it is not closed.
record IsAt (sid : ℕ) (s : Stream) (runs : List Bytes) (c : Connection) : Type 0 where
  found : find_id sid c.streams ≡ some s
  open_id : contains sid c.closed_stream_ids ≡ false
  so_far : handler_runs sid c.calls ≡ runs

put_stream-IsAt :
    (sid : ℕ) (s s' : Stream) (runs : List Bytes) (c : Connection)
    → IsAt sid s runs c
    → IsAt sid s' runs (put_stream sid s' c)
unfolding put_stream
put_stream-IsAt sid s s' runs c h = record {
  found = find_id-put_id sid sid s' c.streams ∙ ground arith;
  open_id = h.open_id;
  so_far = h.so_far;
}

get_or_create_stream_found :
    (sid : ℕ) (s : Stream) (runs : List Bytes) (c : Connection)
    → IsAt sid s runs c
    → get_or_create_stream sid c ≡ s
unfolding get_or_create_stream
get_or_create_stream_found sid s runs c h = rw h.found refl

data_chunk_taken :
    (cfg : Setup) (sid : ℕ) (chunk : Bytes) (c : Connection)
    → contains sid c.closed_stream_ids ≡ false
    → IsTaking (get_or_create_stream sid c)
    → on_data_chunk_recv cfg sid chunk c
      ≡ put_stream sid (append_body cfg.limits.max_body_size chunk (get_or_create_stream sid c)) c
unfolding on_data_chunk_recv
data_chunk_taken cfg sid chunk c open_id taking =
    ground (arith, open_id, taking.direct, taking.incomplete)

end_data_taken :
    (sid : ℕ) (c : Connection)
    → IsTaking (get_or_create_stream sid c)
    → end_data sid c
      ≡ push_pending sid
          (put_stream sid (record (get_or_create_stream sid c) { request_complete = true }) c)
unfolding end_data
end_data_taken sid c taking = ground (arith, taking.direct)

-- One chunk, then the last frame, then a round.
module _ (cfg : Setup) (sid : ℕ) (runs : List Bytes) where
  on_data_chunk_recv-IsAt :
      (chunk : Bytes) (s : Stream) (c : Connection)
      → IsTaking s
      → IsAt sid s runs c
      → IsAt sid
          (append_body cfg.limits.max_body_size chunk s)
          runs
          (on_data_chunk_recv cfg sid chunk c)
  on_data_chunk_recv-IsAt chunk s c taking h =
      let found = get_or_create_stream_found sid s runs c h in
      rw (data_chunk_taken cfg sid chunk c h.open_id (rw found taking), found)
        (put_stream-IsAt sid s (append_body cfg.limits.max_body_size chunk s) runs c h)

  end_data-IsAt :
      (s : Stream) (c : Connection)
      → IsTaking s
      → IsAt sid s runs c
      → IsAt sid (record s { request_complete = true }) runs (end_data sid c)
        × (contains sid (end_data sid c).pending_dispatch ≡ true)
  unfolding put_stream
  end_data-IsAt s c taking h =
      let found = get_or_create_stream_found sid s runs c h in
      let s' = record s { request_complete = true } in
      let put = put_stream-IsAt sid s s' runs c h in
      rw (end_data_taken sid c (rw found taking), found)
        (
          record { found = put.found; open_id = put.open_id; so_far = put.so_far },
          contains_last sid c.pending_dispatch,
        )

-- The events of a request's body: its chunks, the frame that ends the stream and a round of dispatch.
abbrev pub body_events : ℕ → List Bytes → List Event
body_events sid [] = frame_recv (data_frame sid true) ∷ dispatch_pending ∷ []
body_events sid (chunk ∷ chunks) = data_chunk sid chunk ∷ body_events sid chunks

body_to_run_fresh :
    (s : Stream) → IsTaking s → body_to_run (record s { request_complete = true }) ≡ accepted s
body_to_run_fresh s taking = ground (arith, taking.fresh)

module _ (cfg : Setup) (respond : Stream → Handled) (sid : ℕ) (runs : List Bytes) where
  last_events_runs :
      (s : Stream) (c : Connection)
      → IsTaking s
      → IsAt sid s runs c
      → handler_runs sid (dispatch_pending_requests respond (end_data sid c)).calls
        ≡ runs ++ accepted s
  last_events_runs s c taking h =
      let ended = end_data-IsAt cfg sid runs s c taking h in
      let s' = record s { request_complete = true } in
      let body = to_run-found sid s' (end_data sid c) ended.0.open_id ended.0.found in
      handler_runs-dispatch_pending_requests respond sid (end_data sid c)
      ∙ rw (ended.1, ended.0.so_far, body, body_to_run_fresh s taking) refl

  body_events_runs :
      (chunks : List Bytes) (s : Stream) (c : Connection)
      → IsTaking s
      → IsAt sid s runs c
      → handler_runs sid (run cfg respond (body_events sid chunks) c).calls
        ≡ runs ++ accepted (take_chunks cfg.limits.max_body_size chunks s)
  unfolding run step on_frame_recv
  body_events_runs [] s c taking h = last_events_runs s c taking h
  body_events_runs (chunk ∷ chunks) s c taking h =
      let s' = append_body cfg.limits.max_body_size chunk s in
      body_events_runs chunks s' (on_data_chunk_recv cfg sid chunk c)
        (append_body-IsTaking cfg.limits.max_body_size chunk s taking)
        (on_data_chunk_recv-IsAt cfg sid runs chunk s c taking h)

-- A stream is open, its data not streamed to its handler, its request neither complete, reset,
-- answered nor dispatched, its status ok and its body within max_body_size. Then, after any chunks of
-- data, the frame that ends it and a round of dispatch, its handler has run once more, on the chunks
-- joined to the body, when these are within max_body_size, and has not run otherwise.
pub handler_runs-run :
    (cfg : Setup) (respond : Stream → Handled) (sid : ℕ) (chunks : List Bytes) (s : Stream)
    (c : Connection)
    → find_id sid c.streams ≡ some s
    → contains sid c.closed_stream_ids ≡ false
    → IsTaking s
    → is_ok s.error_status ≡ true
    → length s.body_accum ≤ cfg.limits.max_body_size
    → handler_runs sid (run cfg respond (body_events sid chunks) c).calls
      ≡ handler_runs sid c.calls
        ++ whole_body cfg.limits.max_body_size (s.body_accum ++ join_chunks chunks)
handler_runs-run cfg respond sid chunks s c found open_id taking e small =
    let at : IsAt sid s (handler_runs sid c.calls) c = record {
      found = found;
      open_id = open_id;
      so_far = refl;
    } in
    body_events_runs cfg respond sid (handler_runs sid c.calls) chunks s c taking at
    ∙ ap (λ b. handler_runs sid c.calls ++ b)
        (accepted-take_chunks cfg.limits.max_body_size chunks s e small)
