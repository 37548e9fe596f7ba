-- ===== src/Http1/Steps.antt =====
-- src/http/v1/Http1Parser.h: the steps up to a completed request.
use mathlib.Core.Path.{subst}
use aegon.Base.{ℕ, ◌+◌, ◌≡◌, refl, sym, Bool, true, false, not, ◌&&◌, some, length, take}
use aegon.Base.Bytes.{Bytes}
use aegon.Simd.{Target}
use aegon.Simd.Find.{find_crlf}
use aegon.Http1.Result.{ok, ok_injective, bind-ok, require_some-ok, require-ok, passed}
use aegon.Http1.Line.{Limits, parse_line}
use aegon.Http1.Fields.{empty_head}
use aegon.Http1.Headers.{parse_headers}
use aegon.Http1.Parse.{Request, parse, parse_body, check_framing, is_http1_1}

pub record Steps (t : Target) (limits : Limits) (buffer : Bytes) (req : Request) (n : ℕ)
    : Type 0 where
  pub line_end : ℕ
  pub cursor : ℕ
  pub line_found : find_crlf t buffer 0 ≡ some line_end
  pub line_read : parse_line t limits (take line_end buffer) ≡ ok req.line
  pub headers_read :
      parse_headers (length buffer) t limits buffer line_end (line_end + 2) empty_head
      ≡ ok (cursor, req.head)
  pub host_given : (is_http1_1 req.line.version && not req.head.has_host) ≡ false
  pub one_framing : (req.head.has_content_length && req.head.has_transfer_encoding) ≡ false
  pub body_read : parse_body t limits buffer cursor req.head ≡ ok (req.body, n)

opposite : (b : Bool) → not b ≡ true → b ≡ false
opposite true h = cc
opposite false h = refl

pub parse-Steps :
    (t : Target) (limits : Limits) (buffer : Bytes) (req : Request) (n : ℕ)
    → parse t limits buffer ≡ ok (req, n)
    → Steps t limits buffer req n
unfolding parse
parse-Steps t limits buffer req n e =
    let (line_end, found, e1) = require_some-ok (find_crlf t buffer 0) _ _ (req, n) e in
    let (line, on_line, e2) = bind-ok (parse_line t limits (take line_end buffer)) _ (req, n) e1 in
    let (h, on_headers, e3) =
      bind-ok (parse_headers (length buffer) t limits buffer line_end (line_end + 2) empty_head) _
        (req, n) e2 in
    let (u, framed, e4) = bind-ok (check_framing line.version h.1) _ (req, n) e3 in
    let (b, on_body, e5) = bind-ok (parse_body t limits buffer h.0 h.1) _ (req, n) e4 in
    let (host, e6) = require-ok (not (is_http1_1 line.version && not h.1.has_host)) _ _ u framed in
    let one = passed (not (h.1.has_content_length && h.1.has_transfer_encoding)) _ u e6 in
    let same : (req, n) ≡ (record { line = line; head = h.1; body = b.0 }, b.1) =
      ok_injective _ (req, n) e5 in
    let steps : Steps t limits buffer (record { line = line; head = h.1; body = b.0 }) b.1 =
      record {
        line_end = line_end;
        cursor = h.0;
        line_found = found;
        line_read = on_line;
        headers_read = on_headers;
        host_given = opposite (is_http1_1 line.version && not h.1.has_host) host;
        one_framing = opposite (h.1.has_content_length && h.1.has_transfer_encoding) one;
        body_read = on_body;
      } in
    subst (λ (r : Request × ℕ). Steps t limits buffer r.0 r.1) (sym same) steps
