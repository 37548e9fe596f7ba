-- ===== src/Protocol.antt =====
-- src/http/Protocol.h: the checks of a request and of a response that HTTP/2 and HTTP/3 share.
use aegon.Base.{
  ℕ, Bool, true, false, not, ◌&&◌, ◌||◌, Option, none, some, [], ◌∷◌, ltb, leb, ◌==◌, if◌then◌else◌,
  length, map,
}
use aegon.Base.Bytes.{Bytes, bytes_eq}
use aegon.HeaderMap.{iequals, to_lower}
use aegon.Simd.{Target}
use aegon.Simd.Check.{all_bytes}
use aegon.Http1.Text.{
  Method, is_options, is_unknown, is_valid_request_target, parse_valid_content_length,
}
use aegon.Http1.Line.{split_query}

-- The codes that a connection gives a request before its handler runs.
pub data StatusCode : Type 0 where
  ok payload_too_large uri_too_long expectation_failed header_fields_too_large : StatusCode

abbrev pub is_ok : StatusCode → Bool
is_ok ok = true
is_ok _ = false

-- if (… && error_status == StatusCode::Ok) error_status = code;
abbrev pub or_status : Bool → StatusCode → StatusCode → StatusCode
or_status test code status = if test && is_ok status then code else status

abbrev pub upgrade_name : Bytes
upgrade_name = (b'u' ∷ b'p' ∷ b'g' ∷ b'r' ∷ b'a' ∷ b'd' ∷ b'e' ∷ [])

abbrev pub connection_name : Bytes
connection_name = (b'c' ∷ b'o' ∷ b'n' ∷ b'n' ∷ b'e' ∷ b'c' ∷ b't' ∷ b'i' ∷ b'o' ∷ b'n' ∷ [])

abbrev pub keep_alive_name : Bytes
keep_alive_name = (b'k' ∷ b'e' ∷ b'e' ∷ b'p' ∷ b'-' ∷ b'a' ∷ b'l' ∷ b'i' ∷ b'v' ∷ b'e' ∷ [])

abbrev pub coding_name : Bytes
coding_name =
    (b't' ∷ b'r' ∷ b'a' ∷ b'n' ∷ b's' ∷ b'f' ∷ b'e' ∷ b'r' ∷ b'-' ∷ b'e' ∷ b'n' ∷ b'c' ∷ b'o' ∷ b'd'
      ∷ b'i' ∷ b'n' ∷ b'g' ∷ [])

unfoldable pub is_hop_by_hop_header : Bytes → Bool
unfolding iequals
is_hop_by_hop_header name =
    if length name == 7
    then iequals name upgrade_name
    else if length name == 10
    then iequals name connection_name || iequals name keep_alive_name
    else if length name == 17
    then iequals name coding_name
    else false

-- By the number of the status.
unfoldable pub should_suppress_content_length : ℕ → Bool
should_suppress_content_length sc = leb 100 sc && ltb sc 200 || sc == 204 || sc == 304

abbrev pub is_upper : ℕ → Bool
is_upper c = leb b'A' c && leb c b'Z'

unfoldable pub is_all_lower_ascii : Bytes → Bool
unfolding all_bytes
is_all_lower_ascii sv = all_bytes (λ c. not (is_upper c)) sv

unfoldable pub to_lower_ascii : Bytes → Bytes
unfolding to_lower
to_lower_ascii sv = map to_lower sv

-- The path, the query and the status, or `none` where it returns false.
unfoldable pub parse_path_header :
    Target → ℕ → Bytes → Method → StatusCode → Option (Bytes × Bytes × StatusCode)
unfolding is_valid_request_target bytes_eq split_query
parse_path_header t max_uri_length target method error_status =
    if not (is_valid_request_target target)
    then none
    else if bytes_eq target (b'*' ∷ []) && not (is_options method) && not (is_unknown method)
    then none
    else some (
      (split_query t target).0,
      (split_query t target).1,
      or_status (ltb max_uri_length (length target)) uri_too_long error_status,
    )

abbrev pub with_length : ℕ → StatusCode → Option ℕ → Option StatusCode
with_length max_body_size error_status none = none
with_length max_body_size error_status (some n) =
    some (or_status (ltb max_body_size n) payload_too_large error_status)

-- The status, or `none` where it returns false.
unfoldable pub validate_request_header : ℕ → Bytes → Bytes → StatusCode → Option StatusCode
unfolding iequals parse_valid_content_length
validate_request_header max_body_size name value error_status =
    if iequals name (
      b'c' ∷ b'o' ∷ b'n' ∷ b't' ∷ b'e' ∷ b'n' ∷ b't' ∷ b'-' ∷ b'l' ∷ b'e' ∷ b'n' ∷ b'g' ∷ b't'
      ∷ b'h' ∷ [])
    then with_length max_body_size error_status (parse_valid_content_length value)
    else if iequals name (b'e' ∷ b'x' ∷ b'p' ∷ b'e' ∷ b'c' ∷ b't' ∷ [])
    then some (
        or_status
          (not (
            iequals value (
              b'1' ∷ b'0' ∷ b'0' ∷ b'-' ∷ b'c' ∷ b'o' ∷ b'n' ∷ b't' ∷ b'i' ∷ b'n' ∷ b'u' ∷ b'e'
              ∷ [])))
          expectation_failed error_status)
    else some error_status
