-- ===== src/Http2/Connection.antt =====
-- src/http/v2/Http2Connection.h: what a connection keeps of itself and of each stream. The nghttp2
-- library calls back into it; what it is told to do is the list `calls`, and its own state is not
-- modelled, so that the callbacks may come in any order.
pub mod Callbacks
pub mod Dispatch
pub mod Bounded
pub mod Fields
pub mod Events
pub mod Keeps
pub mod Safe
pub mod Runs
pub mod Once
pub mod Body
pub mod Source
pub mod Unread
pub mod Ending
pub mod Frames
pub mod Slices
pub mod Drain
pub mod Response
pub mod Names
pub mod Sendable
pub mod Carried
pub mod Scan
pub mod Whole
mod Tests
mod FieldTests
mod ScanTests
use aegon.Base.{
  ℕ, suc, ◌+◌, Bool, true, false, not, ◌&&◌, ◌||◌, Option, none, some, List, [], ◌∷◌, ◌++◌, ltb,
  leb, ◌==◌, if◌then◌else◌, length,
}
use aegon.Base.Bytes.{Bytes}
use aegon.HeaderMap.{HeaderMap, empty_map}
use aegon.Simd.{Target}
use aegon.Http1.Text.{Method, get}
use aegon.Http1.Line.{Limits}
use aegon.Protocol.{StatusCode, ok}

-- The error codes of RFC 9113, which nghttp2 names NGHTTP2_….
abbrev pub protocol_error : ℕ
protocol_error = 1

abbrev pub flow_control_error : ℕ
flow_control_error = 3

abbrev pub stream_closed : ℕ
stream_closed = 5

abbrev pub frame_size_error : ℕ
frame_size_error = 6

abbrev pub enhance_your_calm : ℕ
enhance_your_calm = 11

-- GrpcInboundChannel: what was pushed into it, and whether its end was set.
pub record Inbound : Type 0 where
  pub pushed : Bytes
  pub eof : Bool

pub record Stream : Type 0 where
  pub method : Method
  pub path : Bytes
  pub query : Bytes
  pub headers : HeaderMap
  pub body_accum : Bytes
  pub headers_total_size : ℕ
  pub error_status : StatusCode
  pub request_complete : Bool
  pub response_submitted : Bool
  pub reset : Bool
  pub is_grpc_stream : Bool
  pub grpc_inbound : Option Inbound
  pub dispatched : Bool

abbrev pub new_stream : Stream
new_stream = record {
  method = get;
  path = (b'/' ∷ []);
  query = [];
  headers = empty_map;
  body_accum = [];
  headers_total_size = 0;
  error_status = ok;
  request_complete = false;
  response_submitted = false;
  reset = false;
  is_grpc_stream = false;
  grpc_inbound = none;
  dispatched = false;
}

-- What the connection submits to nghttp2, and the runs of a handler on a body.
pub data Call : Type 0 where
  rst_stream : ℕ → ℕ → Call
  terminate_session : ℕ → Call
  goaway : ℕ → ℕ → Call
  submit_response : ℕ → ℕ → Call
  resume_data : ℕ → Call
  run_handler : ℕ → Bytes → Call

pub record Connection : Type 0 where
  pub streams : List (ℕ × Stream)
  pub pending_dispatch : List ℕ
  pub outbound_buf : Bytes
  pub closed : Bool
  pub rst_count : ℕ
  pub max_remote_stream_id : ℕ
  pub last_error_code : ℕ
  pub closed_stream_ids : List ℕ
  pub calls : List Call

abbrev pub new_connection : Connection
new_connection = record {
  streams = [];
  pending_dispatch = [];
  outbound_buf = [];
  closed = false;
  rst_count = 0;
  max_remote_stream_id = 0;
  last_error_code = 0;
  closed_stream_ids = [];
  calls = [];
}

-- The configuration, and what is asked of other code: whether the router has a streaming handler
-- for a request, which element of an unordered set its `begin` is, and whether
-- nghttp2_submit_rst_stream fails.
pub record Setup : Type 0 where
  pub target : Target
  pub limits : Limits
  pub rst_burst_limit : ℕ
  pub is_streaming : Method → Bytes → Bool
  pub begin : List ℕ → ℕ
  pub submit_rst_fails : ℕ → Bool

unfoldable pub contains : ℕ → List ℕ → Bool
contains i [] = false
contains i (j ∷ js) = i == j || contains i js

unfoldable pub erase : ℕ → List ℕ → List ℕ
erase i [] = []
erase i (j ∷ js) = let rest = erase i js in if i == j then rest else j ∷ rest

abbrev pub insert_id : ℕ → List ℕ → List ℕ
insert_id i js = if contains i js then js else i ∷ js

module _ {ℓ} {A : Type ℓ} where
  unfoldable pub find_id : ℕ → List (ℕ × A) → Option A
  find_id i [] = none
  find_id i ((j, a) ∷ rest) = if i == j then some a else find_id i rest

  unfoldable pub put_id : ℕ → A → List (ℕ × A) → List (ℕ × A)
  put_id i a [] = (i, a) ∷ []
  put_id i a ((j, b) ∷ rest) =
      let more = put_id i a rest in if i == j then (j, a) ∷ rest else (j, b) ∷ more

  unfoldable pub erase_id : ℕ → List (ℕ × A) → List (ℕ × A)
  erase_id i [] = []
  erase_id i ((j, a) ∷ rest) = let more = erase_id i rest in if i == j then rest else (j, a) ∷ more

abbrev pub or_new : Option Stream → Stream
or_new none = new_stream
or_new (some s) = s

-- get_or_create_stream
unfoldable pub get_or_create_stream : ℕ → Connection → Stream
unfolding find_id
get_or_create_stream sid c = or_new (find_id sid c.streams)

unfoldable pub put_stream : ℕ → Stream → Connection → Connection
unfolding put_id
put_stream sid s c = record c { streams = put_id sid s c.streams }

-- if (it != streams_.end()) it->second->reset = true;
abbrev pub reset_found : ℕ → Option Stream → Connection → Connection
reset_found sid none c = c
reset_found sid (some s) c = put_stream sid (record s { reset = true }) c

unfoldable pub reset_stream : ℕ → Connection → Connection
unfolding find_id put_stream
reset_stream sid c = reset_found sid (find_id sid c.streams) c

abbrev pub call : Call → Connection → Connection
call x c = record c { calls = c.calls ++ (x ∷ []) }
