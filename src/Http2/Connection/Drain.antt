-- ===== src/Http2/Connection/Drain.antt =====
-- src/http/v2/Http2Connection.cpp: the reads of a response that is complete.
use aegon.Base.{
  if_cases, ℕ, zero, suc, ◌≡◌, ◌<◌, refl, ap, true, false, Option, some, ◌++◌, ◌∙◌, arith,
}
use aegon.Base.Bytes.{Bytes}
use aegon.Http2.Connection.Source.{
  Outgoing, read_bytes, deferred, temporal_failure, Read, read_stream,
}
use aegon.Http2.Connection.Unread.{
  Given, some_due, IsComplete, Reads, ends, goes, keep_reading, prepend, read_all, reads_left,
  trailers_due, unread,
}
use aegon.Http2.Connection.Frames.{read_grpc-Reads, read_sse-Reads}
use aegon.Http2.Connection.Slices.{read_body-Reads, read_file-Reads}

read_stream-Reads :
    (n : ℕ) (buf : Bytes) (o : Outgoing) → 0 < n → IsComplete o → Reads o (read_stream n buf o)
unfolding read_stream
read_stream-Reads n buf o h whole =
    if_cases (Reads o) o.is_sse _ _ (λ sse. read_sse-Reads n o.sse_frames o h whole sse refl)
      (λ sse.
        if_cases (Reads o) o.is_grpc_stream _ _
          (λ grpc. read_grpc-Reads n o.grpc_frames o h whole sse grpc refl)
          (λ grpc.
            if_cases (Reads o) o.is_file _ _ (λ e. read_file-Reads n buf o h whole sse grpc e)
              (λ e. read_body-Reads n o h whole sse grpc e)))

-- What the reads give at the end.
pub record IsDrained (o : Outgoing) (result : Option Given) : Type 0 where
  pub last : Outgoing
  pub given : result ≡ some (unread o, (some_due (trailers_due o), last))
  pub trailers : last.sent_trailers ≡ o.sent_trailers ++ trailers_due o

keep_reading-IsDrained :
    (more : Outgoing → Option Given) (o : Outgoing) (r : Read)
    → Reads o r
    → ((o' : Outgoing) → IsComplete o' → reads_left o' < reads_left o → IsDrained o' (more o'))
    → IsDrained o (keep_reading more r)
keep_reading-IsDrained more o (read_bytes bs true ending, o') (ends e) next = record {
  last = o';
  given = ap (λ x. some (x, (ending, o'))) e.all ∙ ap (λ x. some (unread o, (x, o'))) e.held_open;
  trailers = e.sent;
}
keep_reading-IsDrained more o (read_bytes bs false ending, o') (goes g) next =
    let d = next o' g.complete g.less in
    record {
      last = d.last;
      given =
          ap (prepend bs) d.given
          ∙ (ap (λ x. some (x, (some_due (trailers_due o'), d.last))) g.rest
              ∙ ap (λ x. some (unread o, (some_due x, d.last))) g.due);
      trailers = d.trailers ∙ rw (g.sent, g.due) refl;
    }
keep_reading-IsDrained more o (deferred, o') r next = elim r [ ]
keep_reading-IsDrained more o (temporal_failure, o') r next = elim r [ ]

-- nghttp2 reads a response into buffers that are not empty, until it is told of the end. When the
-- queues of frames are closed and a file is mapped with its size, more reads than `reads_left` come
-- to the end. They give what was unread, in order and nothing else. What was given to
-- nghttp2_submit_trailer since is the trailers in one list, where there were any that had not been
-- submitted, and nothing for a stream of events or the answer to HEAD without a file; the last read
-- has the flag DATA_FLAG_NO_END_STREAM exactly where there is such a list.
pub read_all_complete :
    (fuel n : ℕ) (buf : Bytes) (o : Outgoing)
    → 0 < n
    → IsComplete o
    → reads_left o < fuel
    → IsDrained o (read_all fuel n buf o)
unfolding read_all
read_all_complete zero n buf o h whole enough = absurd (omega (arith, enough))
read_all_complete (suc fuel) n buf o h whole enough =
    keep_reading-IsDrained (read_all fuel n buf) o (read_stream n buf o)
      (read_stream-Reads n buf o h whole)
      (λ o' whole' less. read_all_complete fuel n buf o' h whole' (omega (arith, enough, less)))
