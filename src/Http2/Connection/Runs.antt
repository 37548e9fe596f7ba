-- ===== src/Http2/Connection/Runs.antt =====
-- src/http/v2/Http2Connection.cpp: the handlers that dispatch runs, from the log of calls, and the
-- ones that it should run.
use mathlib.Core.List.{append-nil}
use aegon.Base.{
  if_both, ℕ, ◌≡◌, refl, true, ◌||◌, Option, none, some, List, [], ◌∷◌, ◌++◌, ◌==◌, ◌∙◌, arith,
  if◌then◌else◌,
}
use aegon.Base.Bytes.{Bytes}
use aegon.Protocol.{is_ok}
use aegon.Http2.Connection.{
  Stream, Connection, Call, rst_stream, terminate_session, goaway, submit_response, resume_data,
  run_handler, contains, find_id, put_id, put_stream, call,
}
use aegon.Http2.Connection.Dispatch.{
  Handled, trailers_only, event_stream, complete, after_handler, submit_once, submitted,
}

-- The bodies that the handler of a stream was run on.
unfoldable pub handler_runs : ℕ → List Call → List Bytes
handler_runs sid [] = []
handler_runs sid (run_handler i body ∷ xs) =
    let rest = handler_runs sid xs in if sid == i then body ∷ rest else rest
handler_runs sid (rst_stream i code ∷ xs) = handler_runs sid xs
handler_runs sid (terminate_session code ∷ xs) = handler_runs sid xs
handler_runs sid (goaway i code ∷ xs) = handler_runs sid xs
handler_runs sid (submit_response i status ∷ xs) = handler_runs sid xs
handler_runs sid (resume_data i ∷ xs) = handler_runs sid xs

abbrev pub body_to_run : Stream → List Bytes
body_to_run s =
    if s.reset || s.response_submitted || s.dispatched
    then []
    else if is_ok s.error_status
    then s.body_accum ∷ []
    else []

abbrev pub found_to_run : Option Stream → List Bytes
found_to_run none = []
found_to_run (some s) = body_to_run s

-- The body that a stream's handler is still to run on, if any.
unfoldable pub to_run : ℕ → Connection → List Bytes
unfolding contains find_id
to_run sid c = if contains sid c.closed_stream_ids then [] else found_to_run (find_id sid c.streams)

pub handler_runs-append :
    (sid : ℕ) (xs ys : List Call)
    → handler_runs sid (xs ++ ys) ≡ handler_runs sid xs ++ handler_runs sid ys
unfolding handler_runs
handler_runs-append sid [] ys = refl
handler_runs-append sid (run_handler i body ∷ xs) ys = ground (arith, handler_runs-append sid xs ys)
handler_runs-append sid (rst_stream i code ∷ xs) ys = handler_runs-append sid xs ys
handler_runs-append sid (terminate_session code ∷ xs) ys = handler_runs-append sid xs ys
handler_runs-append sid (goaway i code ∷ xs) ys = handler_runs-append sid xs ys
handler_runs-append sid (submit_response i status ∷ xs) ys = handler_runs-append sid xs ys
handler_runs-append sid (resume_data i ∷ xs) ys = handler_runs-append sid xs ys

pub find_id-put_id :
    (i j : ℕ) (s : Stream) (xs : List (ℕ × Stream))
    → find_id i (put_id j s xs) ≡ (if i == j then some s else find_id i xs)
unfolding find_id put_id
find_id-put_id i j s [] = ground arith
find_id-put_id i j s ((k, t) ∷ rest) = ground (arith, find_id-put_id i j s rest)

-- A stream was put back as dispatched, with these runs of its handler.
pub record IsDispatched (i : ℕ) (bodies : List Bytes) (c c' : Connection) : Type 0 where
  pub put : (s : Stream) × ((s.dispatched ≡ true) × (c'.streams ≡ put_id i s c.streams))
  pub same : c'.closed_stream_ids ≡ c.closed_stream_ids
  pub runs :
      (sid : ℕ)
      → handler_runs sid c'.calls ≡ handler_runs sid c.calls ++ (if sid == i then bodies else [])

-- A call that runs no handler.
abbrev pub IsSilent : Call → Type 0
IsSilent x = (sid : ℕ) → handler_runs sid (x ∷ []) ≡ []

pub silent_runs :
    (sid : ℕ) (xs : List Call) (x : Call)
    → IsSilent x
    → handler_runs sid (xs ++ (x ∷ [])) ≡ handler_runs sid xs
silent_runs sid xs x h =
    ground (arith, handler_runs-append sid xs (x ∷ []), h sid, append-nil (handler_runs sid xs))

call-IsDispatched :
    (i : ℕ) (bodies : List Bytes) (c c' : Connection) (x : Call)
    → IsSilent x
    → IsDispatched i bodies c c'
    → IsDispatched i bodies c (call x c')
call-IsDispatched i bodies c c' x silent d = record {
  put = d.put;
  same = d.same;
  runs = λ sid. silent_runs sid c'.calls x silent ∙ d.runs sid;
}

module _ (i : ℕ) where
  put_stream-IsDispatched :
      (s : Stream) (c : Connection) → s.dispatched ≡ true → IsDispatched i [] c (put_stream i s c)
  unfolding put_stream
  put_stream-IsDispatched s c e = record {
    put = (s, (e, refl));
    same = refl;
    runs = λ sid. ground (arith, append-nil (handler_runs sid c.calls));
  }

  pub submitted-IsDispatched :
      (status : ℕ) (s : Stream) (c : Connection)
      → s.dispatched ≡ true
      → IsDispatched i [] c (submitted i status s c)
  unfolding handler_runs
  submitted-IsDispatched status s c e =
      call-IsDispatched i [] c _ (submit_response i status) (λ sid. refl)
        (put_stream-IsDispatched (record s { response_submitted = true }) c e)

  submit_once-IsDispatched :
      (status : ℕ) (s : Stream) (c : Connection)
      → s.dispatched ≡ true
      → IsDispatched i [] c (submit_once i status s c)
  submit_once-IsDispatched status s c e =
      if_both (IsDispatched i [] c) s.response_submitted (put_stream i s c) (submitted i status s c)
        (put_stream-IsDispatched s c e) (submitted-IsDispatched status s c e)

  pub after_handler-IsDispatched :
      (handled : Handled) (s : Stream) (c : Connection)
      → s.dispatched ≡ true
      → IsDispatched i [] c (after_handler i handled s c)
  unfolding after_handler handler_runs
  after_handler-IsDispatched handled s c e =
      let once = submit_once-IsDispatched handled.status s c e in
      let resumed = call-IsDispatched i [] c _ (resume_data i) (λ sid. refl) once in
      elim handled.reply
        as (λ r. IsDispatched i [] c (after_handler i (record handled { reply = r }) s c)) [
          | trailers_only ↦ once
          | event_stream ↦ resumed
          | complete ↦
              if_both (IsDispatched i [] c) s.is_grpc_stream
                (call (resume_data i) (submit_once i handled.status s c))
                (submitted i handled.status s c) resumed
                (submitted-IsDispatched handled.status s c e)
        ]
