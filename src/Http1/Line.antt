-- ===== src/Http1/Line.antt =====
-- src/http/v1/Http1Parser.h: the request line.
use aegon.Base.{
  ℕ, suc, ◌+◌, ◌-◌, Bool, not, ◌&&◌, none, some, [], ◌∷◌, ltb, leb, if◌then◌else◌, length, take,
  drop,
}
use aegon.Base.Bytes.{Bytes, bytes_eq}
use aegon.Base.Decimal.{is_digit}
use aegon.Simd.{Target}
use aegon.Simd.Find.{find, find_char, starts_with}
use aegon.Simd.Check.{all_bytes, validate_uri_chars}
use aegon.Http1.Result.{Parsed, ok, stop, error, uri_too_long, ◌>>=◌, ◌>>◌, require, require_some}
use aegon.Http1.Text.{Method, string_to_method, is_unknown, is_options, is_valid_request_target}

-- ProtocolLimits
pub record Limits : Type 0 where
  pub max_uri_length : ℕ
  pub max_headers_size : ℕ
  pub max_header_count : ℕ
  pub max_body_size : ℕ

pub data HttpVersion : Type 0 where
  http1_0 http1_1 : HttpVersion

pub record RequestLine : Type 0 where
  pub method : Method
  pub path : Bytes
  pub query : Bytes
  pub version : HttpVersion

-- What follows the authority of an absolute URI, or "/".
unfoldable pub after_authority : Target → Bytes → Bytes
unfolding find
after_authority t full_path = elim (find_char t full_path b'/' 0) [
  | none ↦ b'/' ∷ []
  | some slash ↦ drop slash full_path
]

abbrev pub starts_with_slash : Bytes → Bool
starts_with_slash full_path = starts_with (b'/' ∷ []) full_path

-- Origin form, asterisk form or absolute form.
unfoldable pub origin_form : Target → Method → Bytes → Parsed Bytes
unfolding after_authority bytes_eq starts_with
origin_form t m full_path =
    if starts_with_slash full_path
    then ok full_path
    else if bytes_eq full_path (b'*' ∷ [])
    then require (is_options m) error >> ok full_path
    else if starts_with (b'h' ∷ b't' ∷ b't' ∷ b'p' ∷ b':' ∷ b'/' ∷ b'/' ∷ []) full_path
    then ok (after_authority t (drop 7 full_path))
    else if starts_with (b'h' ∷ b't' ∷ b't' ∷ b'p' ∷ b's' ∷ b':' ∷ b'/' ∷ b'/' ∷ []) full_path
    then ok (after_authority t (drop 8 full_path))
    else stop error

unfoldable pub parse_version : Bytes → Parsed HttpVersion
unfolding bytes_eq starts_with all_bytes is_digit
parse_version ver_sv =
    if bytes_eq ver_sv (b'H' ∷ b'T' ∷ b'T' ∷ b'P' ∷ b'/' ∷ b'1' ∷ b'.' ∷ b'1' ∷ [])
    then ok http1_1
    else if bytes_eq ver_sv (b'H' ∷ b'T' ∷ b'T' ∷ b'P' ∷ b'/' ∷ b'1' ∷ b'.' ∷ b'0' ∷ [])
    then ok http1_0
    else if starts_with (b'H' ∷ b'T' ∷ b'T' ∷ b'P' ∷ b'/' ∷ b'1' ∷ b'.' ∷ []) ver_sv
        && leb 8 (length ver_sv)
    then require (all_bytes is_digit (drop 7 ver_sv)) error >> ok http1_1
    else stop error

-- The path and the query.
unfoldable pub split_query : Target → Bytes → Bytes × Bytes
unfolding find
split_query t full_path = elim (find_char t full_path b'?' 0) [
  | none ↦ (full_path, [])
  | some qmark ↦ (take qmark full_path, drop (suc qmark) full_path)
]

-- The target, from the text between the two spaces.
unfoldable pub parse_target : Target → Limits → Method → Bytes → Parsed (Bytes × Bytes)
unfolding origin_form is_valid_request_target validate_uri_chars split_query
parse_target t limits m full_path =
    require (not (ltb limits.max_uri_length (length full_path))) uri_too_long
    >> (origin_form t m full_path >>= λ origin.
        require (is_valid_request_target origin) error
        >> (require (validate_uri_chars t origin) error >> ok (split_query t origin)))

unfoldable pub parse_line : Target → Limits → Bytes → Parsed RequestLine
unfolding find string_to_method parse_target parse_version
parse_line t limits req_line = require_some (find_char t req_line 32 0) error >>= λ sp1.
    let m = string_to_method (take sp1 req_line) in
    require (not (is_unknown m)) error
    >> (require_some (find_char t req_line 32 (sp1 + 1)) error >>= λ sp2.
        parse_target t limits m (take (sp2 - (sp1 + 1)) (drop (sp1 + 1) req_line)) >>= λ target.
        parse_version (drop (sp2 + 1) req_line) >>= λ v.
        ok (record { method = m; path = target.0; query = target.1; version = v }))
