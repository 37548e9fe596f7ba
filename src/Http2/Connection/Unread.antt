-- ===== src/Http2/Connection/Unread.antt =====
-- src/http/v2/Http2Connection.cpp: the reads of a response, one after the other.
use aegon.Base.{
  ℕ, zero, suc, ◌≡◌, ◌<◌, ◌+◌, Bool, true, false, not, ◌&&◌, ◌||◌, Option, none, some, List, [],
  ◌∷◌, ◌++◌, if◌then◌else◌, length, drop,
}
use aegon.Base.Bytes.{Bytes}
use aegon.Http2.Connection.Source.{
  Outgoing, read_bytes, deferred, temporal_failure, Read, trailer_fields, add_fields, read_stream,
}

abbrev pub join : List Bytes → Bytes
join [] = []
join (frame ∷ rest) = frame ++ join rest

abbrev file_bytes : Option Bytes → Bytes
file_bytes none = []
file_bytes (some bs) = bs

-- What is still to be read.
abbrev pub unread : Outgoing → Bytes
unread o =
    if o.is_sse
    then join o.sse_frames
    else if o.is_grpc_stream
    then join o.grpc_frames
    else if o.is_head
    then []
    else if o.is_file
    then drop o.file_offset (file_bytes o.file_data)
    else drop o.body_offset o.body

-- The queues are closed, and a file is there with its size.
pub record IsComplete (o : Outgoing) : Type 0 where
  pub sse : o.is_sse ≡ true → o.sse_eof ≡ true
  pub grpc : o.is_grpc_stream ≡ true → o.grpc_eof ≡ true
  pub file : o.is_file ≡ true → (bs : Bytes) × ((o.file_data ≡ some bs) × (o.file_size ≡ length bs))

-- The bytes of all reads, the last flag DATA_FLAG_NO_END_STREAM, and the response then.
abbrev pub Given : Type 0
Given = Bytes × (Bool × Outgoing)

abbrev pub prepend : Bytes → Option Given → Option Given
prepend bs none = none
prepend bs (some (cs, last)) = some (bs ++ cs, last)

-- The reads of nghttp2 up to the end of the data, with what they gave.
abbrev pub keep_reading : (Outgoing → Option Given) → Read → Option Given
keep_reading more (read_bytes bs true no_end_stream, o) = some (bs, (no_end_stream, o))
keep_reading more (read_bytes bs false ending, o) = prepend bs (more o)
keep_reading more (deferred, o) = none
keep_reading more (temporal_failure, o) = none

unfoldable pub read_all : ℕ → ℕ → Bytes → Outgoing → Option Given
unfolding read_stream
read_all zero n buf o = none
read_all (suc fuel) n buf o = keep_reading (read_all fuel n buf) (read_stream n buf o)

-- The fields of the trailers that are still to be submitted.
abbrev pub fields_due : Outgoing → List (List (Bytes × Bytes))
fields_due o = if o.trailers_submitted then [] else add_fields (trailer_fields o.trailers) []

-- The field lists that the rest of the response is to give to nghttp2_submit_trailer: those of the
-- trailers, but none for a stream of events and none for the answer to HEAD without a file, whose
-- trailers the source never submits.
abbrev pub trailers_due : Outgoing → List (List (Bytes × Bytes))
trailers_due o =
    if o.is_sse || (not o.is_grpc_stream && (not o.is_file && o.is_head)) then [] else fields_due o

abbrev pub weight : List Bytes → ℕ
weight [] = 0
weight (frame ∷ rest) = suc (length frame) + weight rest

-- How many reads are left, at most, but for the last.
abbrev pub reads_left : Outgoing → ℕ
reads_left o =
    if o.is_sse
    then weight o.sse_frames
    else if o.is_grpc_stream
    then weight o.grpc_frames
    else length (unread o)

abbrev pub some_due : List (List (Bytes × Bytes)) → Bool
some_due [] = false
some_due (fields ∷ rest) = true

pub record Ends (o : Outgoing) (bs : Bytes) (no_end_stream : Bool) (o' : Outgoing) : Type 0 where
  pub all : bs ≡ unread o
  pub held_open : no_end_stream ≡ some_due (trailers_due o)
  pub sent : o'.sent_trailers ≡ o.sent_trailers ++ trailers_due o

pub record Goes (o : Outgoing) (bs : Bytes) (o' : Outgoing) : Type 0 where
  pub rest : bs ++ unread o' ≡ unread o
  pub due : trailers_due o' ≡ trailers_due o
  pub sent : o'.sent_trailers ≡ o.sent_trailers
  pub complete : IsComplete o'
  pub less : reads_left o' < reads_left o

pub data Reads (o : Outgoing) : Read → Type 0 where
  ends :
      {bs : Bytes} {ending : Bool} {o' : Outgoing}
      → Ends o bs ending o'
      → Reads o (read_bytes bs true ending, o')
  goes :
      {bs : Bytes} {ending : Bool} {o' : Outgoing}
      → Goes o bs o'
      → Reads o (read_bytes bs false ending, o')
