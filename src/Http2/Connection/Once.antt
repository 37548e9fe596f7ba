-- ===== src/Http2/Connection/Once.antt =====
-- src/http/v2/Http2Connection.cpp: the handlers that dispatch_pending_requests runs.
use mathlib.Core.List.{append-nil}
use aegon.Base.{
  if_both, ℕ, ◌≡◌, refl, ap, sym, true, false, ◌||◌, some, List, [], ◌∷◌, ◌++◌, ◌==◌, ◌∙◌, arith,
  if◌then◌else◌, Bool-cases, Option-cases, inl, inr,
}
use aegon.Base.Bytes.{Bytes}
use aegon.Protocol.{is_ok}
use aegon.Http2.Connection.{
  Stream, Connection, submit_response, run_handler, contains, find_id, put_id, call,
}
use aegon.Http2.Connection.Dispatch.{Handled, after_handler, handle, dispatch_stream, status_number}
use aegon.Http2.Connection.Dispatch.{dispatch_id, dispatch_each, dispatch_pending_requests}
use aegon.Http2.Connection.Runs.{
  handler_runs, body_to_run, to_run, handler_runs-append, find_id-put_id, IsDispatched, IsSilent,
  silent_runs, submitted-IsDispatched, after_handler-IsDispatched,
}

handler_runs-run_handler :
    (sid i : ℕ) (body : Bytes)
    → handler_runs sid (run_handler i body ∷ []) ≡ (if sid == i then body ∷ [] else [])
unfolding handler_runs
handler_runs-run_handler sid i body = ground arith

runs_after :
    (sid i : ℕ) (body : Bytes) (c : Connection)
    → handler_runs sid (call (run_handler i body) c).calls
      ≡ handler_runs sid c.calls ++ (if sid == i then body ∷ [] else [])
runs_after sid i body c =
    handler_runs-append sid c.calls (run_handler i body ∷ [])
    ∙ ap (λ b. handler_runs sid c.calls ++ b) (handler_runs-run_handler sid i body)

submit_response-IsSilent : (i status : ℕ) → IsSilent (submit_response i status)
unfolding handler_runs
submit_response-IsSilent i status sid = refl

-- A handler was begun on a body, and then the stream put back.
begun :
    (i : ℕ) (body : Bytes) (c ran c' : Connection)
    → ran.streams ≡ c.streams
    → ran.closed_stream_ids ≡ c.closed_stream_ids
    → ((sid : ℕ)
        → handler_runs sid ran.calls
          ≡ handler_runs sid c.calls ++ (if sid == i then body ∷ [] else []))
    → IsDispatched i [] ran c'
    → IsDispatched i (body ∷ []) c c'
begun i body c ran c' streams same runs d = record {
  put = (d.put.0, (d.put.1.0, rw (← streams) d.put.1.1));
  same = d.same ∙ same;
  runs = λ sid. ground (arith, d.runs sid, runs sid, append-nil (handler_runs sid ran.calls));
}

module _ (respond : Stream → Handled) where
  handle-IsDispatched :
      (i : ℕ) (s : Stream) (c : Connection)
      → s.dispatched ≡ true
      → IsDispatched i (s.body_accum ∷ []) c (handle respond i s c)
  unfolding handle
  handle-IsDispatched i s c e =
      let h = respond s in
      let ran = call (run_handler i s.body_accum) c in
      let early = call (submit_response i h.status) ran in
      let s' = record s { response_submitted = true } in
      if_both (IsDispatched i (s.body_accum ∷ []) c) h.pushed_frame (after_handler i h s' early)
        (after_handler i h s ran)
        (begun i s.body_accum c early _ refl refl
          (λ sid.
            silent_runs sid ran.calls (submit_response i h.status)
              (submit_response-IsSilent i h.status)
            ∙ runs_after sid i s.body_accum c)
          (after_handler-IsDispatched i h s' early e))
        (begun i s.body_accum c ran _ refl refl (λ sid. runs_after sid i s.body_accum c)
          (after_handler-IsDispatched i h s ran e))

  dispatch_stream-skips :
      (i : ℕ) (s : Stream) (c : Connection)
      → (s.reset || s.response_submitted || s.dispatched) ≡ true
      → dispatch_stream respond i s c ≡ c
  unfolding dispatch_stream
  dispatch_stream-skips i s c e = rw e refl

  dispatch_stream-IsDispatched :
      (i : ℕ) (s : Stream) (c : Connection)
      → (s.reset || s.response_submitted || s.dispatched) ≡ false
      → IsDispatched i (body_to_run s) c (dispatch_stream respond i s c)
  unfolding dispatch_stream
  dispatch_stream-IsDispatched i s c e =
      let s' = record s { dispatched = true } in
      elim (Bool-cases (is_ok s.error_status)) [
        | inl o ↦ rw (e, o, dispatch_stream) (handle-IsDispatched i s' c refl)
        | inr o ↦
            rw (e, o, dispatch_stream)
              (submitted-IsDispatched i (status_number s.error_status) s' c refl)
      ]

pub to_run-found :
    (i : ℕ) (s : Stream) (c : Connection)
    → contains i c.closed_stream_ids ≡ false
    → find_id i c.streams ≡ some s
    → to_run i c ≡ body_to_run s
unfolding to_run
to_run-found i s c open_id e = rw (open_id, e) refl

body_to_run_dispatched : (s : Stream) → s.dispatched ≡ true → body_to_run s ≡ []
body_to_run_dispatched s e = ground (arith, e)

to_run_put :
    (i sid : ℕ) (s : Stream) (c c' : Connection)
    → s.dispatched ≡ true
    → c'.streams ≡ put_id i s c.streams
    → c'.closed_stream_ids ≡ c.closed_stream_ids
    → to_run sid c' ≡ (if sid == i then [] else to_run sid c)
unfolding to_run
to_run_put i sid s c c' e streams same =
    let e' = body_to_run_dispatched s e in
    rw (same, streams, find_id-put_id sid i s c.streams)
      (elim (Bool-cases (sid == i)) [
        | inl t ↦
            rw (t, e')
              (elim (Bool-cases (contains sid c.closed_stream_ids)) [
                | inl x ↦ rw x refl
                | inr x ↦ rw x refl
              ])
        | inr t ↦ rw t refl
      ])

-- What a step of the round, for the stream `i`, does to the stream `sid`.
record Steps (i sid : ℕ) (c c' : Connection) : Type 0 where
  runs :
      handler_runs sid c'.calls
      ≡ handler_runs sid c.calls ++ (if sid == i then to_run sid c else [])
  left : to_run sid c' ≡ (if sid == i then [] else to_run sid c)

IsDispatched-Steps :
    (i sid : ℕ) (s : Stream) (c c' : Connection)
    → contains i c.closed_stream_ids ≡ false
    → find_id i c.streams ≡ some s
    → IsDispatched i (body_to_run s) c c'
    → Steps i sid c c'
IsDispatched-Steps i sid s c c' open_id e d = record {
  runs = elim (Bool-cases (sid == i)) [
    | inl t ↦
        let same : sid ≡ i = ground (arith, t) in
        d.runs sid
        ∙ rw t (
            ap (λ b. handler_runs sid c.calls ++ b)
              (sym (to_run-found i s c open_id e) ∙ ap (λ k. to_run k c) (sym same)))
    | inr t ↦ d.runs sid ∙ rw t refl
  ];
  left = to_run_put i sid d.put.0 c c' d.put.1.0 d.put.1.1 d.same;
}

-- A stream with nothing to run is left alone.
idle-Steps : (i sid : ℕ) (c : Connection) → to_run i c ≡ [] → Steps i sid c c
idle-Steps i sid c e = elim (Bool-cases (sid == i)) [
  | inl t ↦
      let same : sid ≡ i = ground (arith, t) in
      let none_left : to_run sid c ≡ [] = rw same e in
      record { runs = rw (t, none_left) (sym (append-nil _)); left = rw (t, none_left) refl }
  | inr t ↦ record { runs = rw t (sym (append-nil _)); left = rw t refl }
]

module _ (respond : Stream → Handled) where
  dispatch_id-Steps : (i sid : ℕ) (c : Connection) → Steps i sid c (dispatch_id respond i c)
  unfolding dispatch_id to_run
  dispatch_id-Steps i sid c = elim (Bool-cases (contains i c.closed_stream_ids)) [
    | inl x ↦ rw (x, dispatch_id) (idle-Steps i sid c (rw x refl))
    | inr x ↦ elim (Option-cases (find_id i c.streams)) [
      | inl e ↦ rw (x, e, dispatch_id) (idle-Steps i sid c (rw (x, e) refl))
      | inr (s, e) ↦ elim (Bool-cases (s.reset || s.response_submitted || s.dispatched)) [
        | inl skip ↦
            rw (x, e, dispatch_id, dispatch_stream-skips respond i s c skip)
              (idle-Steps i sid c (rw (x, e, skip) refl))
        | inr go ↦
            rw (x, e, dispatch_id)
              (IsDispatched-Steps i sid s c _ x e (dispatch_stream-IsDispatched respond i s c go))
      ]
    ]
  ]

  handler_runs-dispatch_each :
      (sid : ℕ) (ready : List ℕ) (c : Connection)
      → handler_runs sid (dispatch_each respond ready c).calls
        ≡ handler_runs sid c.calls ++ (if contains sid ready then to_run sid c else [])
  unfolding dispatch_each contains
  handler_runs-dispatch_each sid [] c = sym (append-nil _)
  handler_runs-dispatch_each sid (i ∷ ready) c =
      let c' = dispatch_id respond i c in
      let st = dispatch_id-Steps i sid c in
      let rest = handler_runs-dispatch_each sid ready c' in
      rest
      ∙ rw (st.runs, st.left)
          (elim (Bool-cases (sid == i)) [
            | inl t ↦ rw t (elim (Bool-cases (contains sid ready)) [
              | inl x ↦ rw x (append-nil _)
              | inr x ↦ rw x (append-nil _)
            ])
            | inr t ↦ rw t (rw (append-nil (handler_runs sid c.calls)) refl)
          ])

-- A round runs the handler of a stream on the body that it has to run, once however often the
-- pending list names the stream, and not at all when the list does not name it. A stream has a body
-- to run when it is there and not closed, not reset, not answered, not dispatched before and has no
-- error status.
pub handler_runs-dispatch_pending_requests :
    (respond : Stream → Handled) (sid : ℕ) (c : Connection)
    → handler_runs sid (dispatch_pending_requests respond c).calls
      ≡ handler_runs sid c.calls ++ (if contains sid c.pending_dispatch then to_run sid c else [])
unfolding dispatch_pending_requests to_run
handler_runs-dispatch_pending_requests respond sid c =
    handler_runs-dispatch_each respond sid c.pending_dispatch (record c { pending_dispatch = [] })
