-- ===== src/Http2/Connection/Tests.antt =====
-- The callbacks of an HTTP/2 connection on small requests and responses.
use aegon.Base.{ℕ, ◌≡◌, refl, true, false, Option, none, some, List, [], ◌∷◌, ◌++◌, arith}
use aegon.Base.Bytes.{Bytes}
use aegon.Simd.{portable}
use aegon.Http2.Connection.{
  Stream, Connection, Setup, new_stream, new_connection, contains, find_id,
}
use aegon.Http2.Connection.Callbacks.{rst_stream_frame, headers_frame, path_name}
use aegon.Http2.Connection.Dispatch.{Handled, complete, dispatch_pending_requests}
use aegon.Http2.Connection.Events.{Event, header, frame_recv, stream_close, run}
use aegon.Http2.Connection.Bounded.{IsBounded, new_connection-IsBounded}
use aegon.Http2.Connection.Safe.{run-IsBounded}
use aegon.Http2.Connection.Runs.{handler_runs, to_run}
use aegon.Http2.Connection.Once.{handler_runs-dispatch_pending_requests}
use aegon.Http2.Connection.Body.{IsTaking, body_events, handler_runs-run}
use aegon.Http2.Connection.Source.{Outgoing, read_stream, deferred}
use aegon.Http2.Connection.Unread.{Given, read_all, IsComplete}
use aegon.Http2.Connection.Drain.{IsDrained, read_all_complete}

abbrev first_of : List ℕ → ℕ
first_of [] = 0
first_of (i ∷ js) = i

abbrev setup : Setup
setup = record {
  target = portable;
  limits = record {
    max_uri_length = 16;
    max_headers_size = 64;
    max_header_count = 4;
    max_body_size = 4;
  };
  rst_burst_limit = 2;
  is_streaming = λ m p. false;
  begin = first_of;
  submit_rst_fails = λ i. false;
}

abbrev respond : Stream → Handled
respond s = record { pushed_frame = false; status = 200; reply = complete }

first_of_in : (i : ℕ) (js : List ℕ) → contains (first_of (i ∷ js)) (i ∷ js) ≡ true
unfolding contains
first_of_in i js = ground arith

-- A request, its answer, and more resets than are taken.
abbrev a_request : List Event
a_request =
    header true 1 path_name (b'/' ∷ b'a' ∷ [])
      ∷ frame_recv (headers_frame 1 false none)
      ∷ body_events 1 ((b'a' ∷ b'b' ∷ []) ∷ (b'c' ∷ []) ∷ [])
    ++ (stream_close 1
        ∷ frame_recv (rst_stream_frame 3)
        ∷ frame_recv (rst_stream_frame 5)
        ∷ frame_recv (rst_stream_frame 7)
        ∷ [])

run-IsBounded_example : IsBounded setup 3 (run setup respond a_request new_connection)
run-IsBounded_example =
    run-IsBounded setup respond a_request 0 new_connection first_of_in
      (new_connection-IsBounded setup)

a_request_runs :
    handler_runs 1 (run setup respond a_request new_connection).calls
    ≡ (b'a' ∷ b'b' ∷ b'c' ∷ []) ∷ []
unfolding run handler_runs
a_request_runs = refl

a_request_closes : (run setup respond a_request new_connection).closed ≡ true
unfolding run
a_request_closes = refl

abbrev with_body : Stream
with_body = record new_stream { body_accum = b'x' ∷ [] }

-- Stream 1 is pending twice.
abbrev pending_twice : Connection
pending_twice = record new_connection {
  streams = (1, with_body) ∷ (3, new_stream) ∷ [];
  pending_dispatch = 1 ∷ 1 ∷ [];
}

dispatch_pending_requests_example :
    handler_runs 1 (dispatch_pending_requests respond pending_twice).calls ≡ (b'x' ∷ []) ∷ []
unfolding handler_runs to_run contains
dispatch_pending_requests_example = handler_runs-dispatch_pending_requests respond 1 pending_twice

with_body-IsTaking : IsTaking with_body
with_body-IsTaking = record { direct = refl; incomplete = refl; fresh = refl }

found_body : find_id 1 pending_twice.streams ≡ some with_body
unfolding find_id
found_body = refl

none_closed : contains 1 pending_twice.closed_stream_ids ≡ false
unfolding contains
none_closed = refl

handler_runs-run_example :
    handler_runs 1
      (run setup respond
        (body_events 1 ((b'a' ∷ []) ∷ (b'b' ∷ b'c' ∷ []) ∷ []))
        pending_twice).calls
    ≡ (b'x' ∷ b'a' ∷ b'b' ∷ b'c' ∷ []) ∷ []
unfolding handler_runs
handler_runs-run_example =
    handler_runs-run setup respond 1 ((b'a' ∷ []) ∷ (b'b' ∷ b'c' ∷ []) ∷ []) with_body pending_twice
      found_body none_closed with_body-IsTaking refl (omega arith)

-- One byte more, and the handler does not run.
too_long :
    handler_runs 1
      (run setup respond
        (body_events 1 ((b'a' ∷ []) ∷ (b'b' ∷ b'c' ∷ b'd' ∷ []) ∷ []))
        pending_twice).calls
    ≡ []
unfolding run handler_runs
too_long = refl

abbrev a_response : Outgoing
a_response = record {
  is_head = false;
  is_sse = false;
  sse_frames = [];
  sse_eof = false;
  is_grpc_stream = false;
  grpc_frames = [];
  grpc_eof = false;
  is_file = false;
  file_data = none;
  file_size = 0;
  file_offset = 0;
  body = b'h' ∷ b'e' ∷ b'l' ∷ b'l' ∷ b'o' ∷ [];
  body_offset = 0;
  trailers = record { name = b'X' ∷ []; value = b'1' ∷ [] } ∷ [];
  trailers_submitted = false;
  sent_trailers = [];
}

a_response-IsComplete : IsComplete a_response
a_response-IsComplete = record {
  sse = λ e. absurd (ground (arith, e));
  grpc = λ e. absurd (ground (arith, e));
  file = λ e. absurd (ground (arith, e));
}

read_all_complete_example : IsDrained a_response (read_all 6 2 (0 ∷ 0 ∷ []) a_response)
read_all_complete_example =
    read_all_complete 6 2 (0 ∷ 0 ∷ []) a_response (omega arith) a_response-IsComplete (omega arith)

abbrev given_by : Option Given → Bytes
given_by none = []
given_by (some (bs, last)) = bs

abbrev trailers_by : Option Given → List (List (Bytes × Bytes))
trailers_by none = []
trailers_by (some (bs, (flag, o))) = o.sent_trailers

a_response_given : given_by (read_all 3 2 (0 ∷ 0 ∷ []) a_response) ≡ a_response.body
unfolding read_all
a_response_given = refl

a_response_trailers :
    trailers_by (read_all 3 2 (0 ∷ 0 ∷ []) a_response) ≡ (((b'x' ∷ []), (b'1' ∷ [])) ∷ []) ∷ []
unfolding read_all aegon.Protocol.is_all_lower_ascii aegon.Protocol.to_lower_ascii
a_response_trailers = refl

-- A streamed request that was refused: its answer is in `body`, and the read waits for frames.
rejected_stream_stalls :
    (read_stream 16 [] (record a_response { is_grpc_stream = true })).0 ≡ deferred
unfolding read_stream
rejected_stream_stalls = refl
