-- ===== src/Http1/Safe.antt =====
-- src/http/v1/Http1Parser.h: the requests that it completes.
use aegon.Base.{
  ℕ, ◌+◌, ◌^◌, ◌<◌, ◌≤◌, ◌≡◌, true, false, ◌&&◌, [], arith, length, length-take, length-drop, take,
  drop, All, All-take, Bool-cases, inl, inr,
}
use aegon.Base.Bytes.{Bytes, IsByte}
use aegon.HeaderMap.{size, contains, content_length_name, transfer_encoding_name}
use aegon.HeaderMap.Flagged
use aegon.Simd.{Target}
use aegon.Simd.Check.{all_bytes}
use aegon.Http1.Result.{ok}
use aegon.Http1.Line.{Limits}
use aegon.Http1.Fields.{Head, host_name, empty_head}
use aegon.Http1.Parse.{Request, parse, parse_body, is_http1_1}
use aegon.Http1.Clean.{has_header, IsClean, IsHead, empty_head-IsHead}
use aegon.Http1.Bounds.{IsBody, parse_chunks-IsBody}
use aegon.Http1.Invariant.{parse_headers-IsResult}
use aegon.Http1.Steps.{parse-Steps}
use aegon.Http1.Targets.{is_target_char, parse_line-IsTarget}

module _ (t : Target) (limits : Limits) (buffer : Bytes)
    (small : length buffer + limits.max_body_size < 2 ^ 64) where
  parse_body-IsBody :
      (cursor : ℕ) (s : Head) (r : Bytes × ℕ)
      → cursor ≤ length buffer
      → s.content_length ≤ limits.max_body_size
      → parse_body t limits buffer cursor s ≡ ok r
      → IsBody t limits buffer r
  unfolding parse_body
  parse_body-IsBody cursor s r h k e = elim (Bool-cases s.is_chunked) [
    | inl chunked ↦
        parse_chunks-IsBody t limits buffer small (length buffer + 1) cursor [] r (omega arith)
          (ground (arith, e, chunked))
    | inr plain ↦ ground (
      arith,
      e,
      plain,
      h,
      k,
      length-take s.content_length (drop cursor buffer),
      length-drop cursor buffer,
    )
  ]

-- A request that the rest of the server can rely on.
pub record IsSafe (limits : Limits) (buffer : Bytes) (req : Request) (bytes_consumed : ℕ)
    : Type 0 where
  pub path_chars : all_bytes is_target_char req.line.path ≡ true
  pub query_chars : all_bytes is_target_char req.line.query ≡ true
  pub headers_valid : Flagged.IsValid req.head.headers
  pub inline_clean : All IsClean req.head.headers.inline_headers
  pub heap_clean : All IsClean req.head.headers.heap_headers
  pub header_count : size req.head.headers ≤ limits.max_header_count
  pub host_given : is_http1_1 req.line.version ≡ true → has_header host_name req.head.headers ≡ true
  pub one_framing :
      (contains content_length_name req.head.headers
        && contains transfer_encoding_name req.head.headers)
      ≡ false
  pub body_size : length req.body ≤ limits.max_body_size
  pub consumed : bytes_consumed ≤ length buffer

one_framing_lem :
    (limits : Limits) (s : Head)
    → IsHead limits s
    → (s.has_content_length && s.has_transfer_encoding) ≡ false
    → (contains content_length_name s.headers && contains transfer_encoding_name s.headers) ≡ false
unfolding contains
one_framing_lem limits s good h = ground (arith, h, good.length_flag, good.encoding_flag)

-- Where the parser completes a request from a buffer of bytes, the path and the query are printable
-- ASCII without spaces or '#', every header has a name of one or more token characters and a value
-- without control characters, there are at most `max_header_count` of them, those of an HTTP/1.1
-- request have a Host among them, the list does not hold both Content-Length and Transfer-Encoding, the body has at
-- most `max_body_size` bytes, and no more is consumed than the buffer holds; provided that the
-- buffer's length and that limit add up to less than 2 ^ 64.
pub parse-IsSafe :
    (t : Target) (limits : Limits) (buffer : Bytes) (req : Request) (n : ℕ)
    → All IsByte buffer
    → length buffer + limits.max_body_size < 2 ^ 64
    → parse t limits buffer ≡ ok (req, n)
    → IsSafe limits buffer req n
parse-IsSafe t limits buffer req n bytes small e =
    let steps = parse-Steps t limits buffer req n e in
    let target =
      parse_line-IsTarget t limits (take steps.line_end buffer) req.line
        (All-take IsByte steps.line_end buffer bytes) steps.line_read in
    let (good, inside) =
      parse_headers-IsResult t limits buffer bytes steps.line_end (length buffer)
        (steps.line_end + 2) empty_head (steps.cursor, req.head) (empty_head-IsHead limits)
        steps.headers_read in
    let body =
      parse_body-IsBody t limits buffer small steps.cursor req.head (req.body, n) inside
        good.bounded steps.body_read in
    record {
      path_chars = target.0;
      query_chars = target.1;
      headers_valid = good.valid;
      inline_clean = good.inline_clean;
      heap_clean = good.heap_clean;
      header_count = good.count;
      host_given = λ v. ground (arith, v, steps.host_given, good.host_flag);
      one_framing = one_framing_lem limits req.head good steps.one_framing;
      body_size = body.0;
      consumed = body.1;
    }
