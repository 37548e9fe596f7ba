-- ===== src/Http2/Connection/Source.antt =====
-- src/http/v2/Http2Connection.cpp: on_data_source_read, through which nghttp2 takes a response, and
-- submit_trailers. The bytes of a read are those that it leaves in the buffer.
use aegon.Base.{
  ℕ, ◌+◌, ◌-◌, min, Bool, true, false, not, ◌&&◌, ◌||◌, Option, none, some, List, [], ◌∷◌, ◌++◌,
  ltb, leb, ◌==◌, if◌then◌else◌, length, take, drop,
}
use aegon.Base.Bytes.{Bytes}
use aegon.HeaderMap.{HeaderEntry}
use aegon.Protocol.{is_all_lower_ascii, to_lower_ascii}
use aegon.Http2.Connection.{Connection, contains, find_id}

-- The part of Http2Stream that the response is read from. `trailers` are those of the response, and
-- `sent_trailers` the field lists given to nghttp2_submit_trailer.
pub record Outgoing : Type 0 where
  pub is_head : Bool
  pub is_sse : Bool
  pub sse_frames : List Bytes
  pub sse_eof : Bool
  pub is_grpc_stream : Bool
  pub grpc_frames : List Bytes
  pub grpc_eof : Bool
  pub is_file : Bool
  pub file_data : Option Bytes
  pub file_size : ℕ
  pub file_offset : ℕ
  pub body : Bytes
  pub body_offset : ℕ
  pub trailers : List HeaderEntry
  pub trailers_submitted : Bool
  pub sent_trailers : List (List (Bytes × Bytes))

-- A count with its flags DATA_FLAG_EOF and DATA_FLAG_NO_END_STREAM, ERR_DEFERRED, or
-- ERR_TEMPORAL_CALLBACK_FAILURE.
pub data ReadResult : Type 0 where
  read_bytes : Bytes → Bool → Bool → ReadResult
  deferred : ReadResult
  temporal_failure : ReadResult

abbrev pub Read : Type 0
Read = ReadResult × Outgoing

abbrev pub lower_name : Bytes → Bytes
lower_name n = if is_all_lower_ascii n then n else to_lower_ascii n

abbrev pub trailer_fields : List HeaderEntry → List (Bytes × Bytes)
trailer_fields [] = []
trailer_fields (t ∷ ts) = (lower_name t.name, t.value) ∷ trailer_fields ts

-- if (nva_count > 0)
abbrev pub add_fields :
    List (Bytes × Bytes) → List (List (Bytes × Bytes)) → List (List (Bytes × Bytes))
add_fields [] sent = sent
add_fields (f ∷ fs) sent = sent ++ ((f ∷ fs) ∷ [])

unfoldable pub submit_trailers : Outgoing → Outgoing
submit_trailers o = if o.trailers_submitted then o else record o {
  trailers_submitted = true;
  sent_trailers = add_fields (trailer_fields o.trailers) o.sent_trailers;
}

abbrev pub has_trailers : List HeaderEntry → Bool
has_trailers [] = false
has_trailers (t ∷ ts) = true

-- The end of the data, with the trailers after it if there are any.
unfoldable pub finish : Bytes → Outgoing → Read
unfolding submit_trailers
finish bs o =
    if has_trailers o.trailers && not o.trailers_submitted
    then (read_bytes bs true true, submit_trailers o)
    else (read_bytes bs true false, o)

abbrev pub finish_if : Bool → Bytes → Outgoing → Read
finish_if ended bs o = if ended then finish bs o else (read_bytes bs false false, o)

-- The front of a queue of frames, cut at the length of the buffer.
abbrev pub front : ℕ → Bytes → Bytes
front n frame = take (min (length frame) n) frame

abbrev pub pop_front : ℕ → Bytes → List Bytes → List Bytes
pop_front n frame rest =
    let to_copy : ℕ = min (length frame) n in
    if to_copy == length frame then rest else drop to_copy frame ∷ rest

abbrev pub is_empty : List Bytes → Bool
is_empty [] = true
is_empty (frame ∷ rest) = false

abbrev pub read_sse : ℕ → List Bytes → Outgoing → Read
read_sse n [] o = if o.sse_eof then (read_bytes [] true false, o) else (deferred, o)
read_sse n (frame ∷ rest) o =
    let more = pop_front n frame rest in
    (read_bytes (front n frame) (is_empty more && o.sse_eof) false, record o { sse_frames = more })

abbrev pub read_grpc : ℕ → List Bytes → Outgoing → Read
read_grpc n [] o = if o.grpc_eof then finish [] o else (deferred, o)
read_grpc n (frame ∷ rest) o =
    let more = pop_front n frame rest in
    finish_if (is_empty more && o.grpc_eof) (front n frame) (record o { grpc_frames = more })

-- From `offset`, at most the length of the buffer.
abbrev pub to_copy_from : ℕ → ℕ → ℕ → ℕ
to_copy_from n offset size = min (if ltb offset size then size - offset else 0) n

abbrev pub read_mapped : ℕ → Bytes → Option Bytes → Outgoing → Read
read_mapped n buf none o =
    finish_if (leb o.file_size o.file_offset) (take (to_copy_from n o.file_offset o.file_size) buf)
      o
read_mapped n buf (some bs) o =
    let to_copy : ℕ = to_copy_from n o.file_offset o.file_size in
    finish_if (leb o.file_size (o.file_offset + to_copy)) (take to_copy (drop o.file_offset bs))
      (record o { file_offset = o.file_offset + to_copy })

abbrev pub read_file : ℕ → Bytes → Outgoing → Read
read_file n buf o =
    if o.is_head || o.file_size == 0 then finish [] o else read_mapped n buf o.file_data o

abbrev pub read_body : ℕ → Outgoing → Read
read_body n o =
    let to_copy : ℕ = to_copy_from n o.body_offset (length o.body) in
    if o.is_head
    then (read_bytes [] true false, o)
    else finish_if (leb (length o.body) (o.body_offset + to_copy))
        (take to_copy (drop o.body_offset o.body))
        (record o { body_offset = o.body_offset + to_copy })

-- `buf` is the buffer before, of length `n`.
unfoldable pub read_stream : ℕ → Bytes → Outgoing → Read
unfolding finish
read_stream n buf o =
    if o.is_sse
    then read_sse n o.sse_frames o
    else if o.is_grpc_stream
    then read_grpc n o.grpc_frames o
    else if o.is_file
    then read_file n buf o
    else read_body n o

unfoldable pub on_data_source_read : Connection → ℕ → ℕ → Bytes → Outgoing → Read
unfolding contains find_id read_stream
on_data_source_read c sid n buf o = elim (find_id sid c.streams) [
  | none ↦ (temporal_failure, o)
  | some s ↦
      if s.reset || contains sid c.closed_stream_ids
      then (temporal_failure, o)
      else read_stream n buf o
]
