-- ===== src/Http1/Parse.antt =====
-- src/http/v1/Http1Parser.h: the parser's steps put together.
use aegon.Base.{
  ℕ, ◌+◌, ◌-◌, Bool, true, false, not, ◌&&◌, [], ltb, leb, if◌then◌else◌, length, take, drop,
}
use aegon.Base.Bytes.{Bytes}
use aegon.Simd.{Target}
use aegon.Simd.Find.{find, find_crlf}
use aegon.Http1.Result.{Parsed, ok, error, need_more_data, ◌>>◌, ◌>>=◌, require, require_some}
use aegon.Http1.Line.{Limits, HttpVersion, http1_0, http1_1, RequestLine, parse_line}
use aegon.Http1.Fields.{Head, empty_head}
use aegon.Http1.Headers.{parse_headers}
use aegon.Http1.Chunks.{parse_chunks}

pub record Request : Type 0 where
  pub line : RequestLine
  pub head : Head
  pub body : Bytes

abbrev pub is_http1_1 : HttpVersion → Bool
is_http1_1 http1_0 = false
is_http1_1 http1_1 = true

-- The body from `cursor` on, and the position past it.
unfoldable pub parse_body : Target → Limits → Bytes → ℕ → Head → Parsed (Bytes × ℕ)
unfolding parse_chunks
parse_body t limits buffer cursor s =
    if s.is_chunked
    then parse_chunks (length buffer + 1) t limits buffer cursor []
    else if s.has_content_length && ltb 0 s.content_length
    then require (leb s.content_length (length buffer - cursor)) need_more_data
      >> ok (take s.content_length (drop cursor buffer), cursor + s.content_length)
    else ok ([], cursor)

-- The checks between the headers and the body.
abbrev pub check_framing : HttpVersion → Head → Parsed (Unit {0})
check_framing v s =
    require (not (is_http1_1 v && not s.has_host)) error
    >> require (not (s.has_content_length && s.has_transfer_encoding)) error

-- The request and the number of bytes consumed. The request is what the parser leaves in `req` where
-- it returns Complete.
unfoldable pub parse : Target → Limits → Bytes → Parsed (Request × ℕ)
unfolding find parse_line parse_headers parse_body
parse t limits buffer = require_some (find_crlf t buffer 0) need_more_data >>= λ req_line_end.
    parse_line t limits (take req_line_end buffer) >>= λ line.
    parse_headers (length buffer) t limits buffer req_line_end (req_line_end + 2) empty_head
    >>= λ h.
        check_framing line.version h.1
        >> (parse_body t limits buffer h.0 h.1 >>= λ b.
            ok (record { line = line; head = h.1; body = b.0 }, b.1))
