-- ===== src/Http2/Connection/FieldTests.antt =====
-- The field lists of small responses.
use aegon.Base.{◌≡◌, refl, true, false, none, [], ◌∷◌}
use aegon.HeaderMap.{HeaderMap, empty_map}
use aegon.Http2.Connection.Response.{Response, entries, submit_response, submit_sse_headers}
use aegon.Http2.Connection.Sendable.{IsFieldList}
use aegon.Http2.Connection.Carried.{Carries, sent_headers, submit_response_fields}

abbrev two_headers : HeaderMap
two_headers = record empty_map {
  inline_headers =
      record {
        name = (b'C' ∷ b'o' ∷ b'n' ∷ b'n' ∷ b'e' ∷ b'c' ∷ b't' ∷ b'i' ∷ b'o' ∷ b'n' ∷ []);
        value = (b'c' ∷ b'l' ∷ b'o' ∷ b's' ∷ b'e' ∷ []);
      }
      ∷ record { name = (b'X' ∷ b'-' ∷ b'A' ∷ []); value = (b'1' ∷ []) }
      ∷ [];
}

abbrev proxy_header : HeaderMap
proxy_header = record empty_map {
  inline_headers =
      record {
        name =
            (b'P' ∷ b'r' ∷ b'o' ∷ b'x' ∷ b'y' ∷ b'-' ∷ b'C' ∷ b'o' ∷ b'n' ∷ b'n' ∷ b'e' ∷ b'c'
              ∷ b't' ∷ b'i' ∷ b'o' ∷ b'n' ∷ []);
        value = (b'c' ∷ b'l' ∷ b'o' ∷ b's' ∷ b'e' ∷ []);
      }
      ∷ [];
}

abbrev small : Response
small = record {
  status = 200;
  headers = two_headers;
  trailers = empty_map;
  body = (b'h' ∷ b'e' ∷ b'l' ∷ b'l' ∷ b'o' ∷ []);
  file_size = none;
  is_trailers_only = false;
}

submit_response_example :
    (IsFieldList 200 (submit_response (b'n' ∷ b'o' ∷ b'w' ∷ []) [] small)
      × Carries
          (sent_headers (entries two_headers))
          (submit_response (b'n' ∷ b'o' ∷ b'w' ∷ []) [] small))
    × (IsFieldList 200 (submit_sse_headers (b'n' ∷ b'o' ∷ b'w' ∷ []) [] small)
        × Carries
            (sent_headers (entries two_headers))
            (submit_sse_headers (b'n' ∷ b'o' ∷ b'w' ∷ []) [] small))
submit_response_example = submit_response_fields (b'n' ∷ b'o' ∷ b'w' ∷ []) [] small tt

small_fields :
    submit_response (b'n' ∷ b'o' ∷ b'w' ∷ []) [] small
    ≡ ((b':' ∷ b's' ∷ b't' ∷ b'a' ∷ b't' ∷ b'u' ∷ b's' ∷ []), (b'2' ∷ b'0' ∷ b'0' ∷ []))
      ∷ (
        (b'c' ∷ b'o' ∷ b'n' ∷ b't' ∷ b'e' ∷ b'n' ∷ b't' ∷ b'-' ∷ b'l' ∷ b'e' ∷ b'n' ∷ b'g' ∷ b't'
            ∷ b'h' ∷ []),
        (b'5' ∷ []),
      )
      ∷ ((b'd' ∷ b'a' ∷ b't' ∷ b'e' ∷ []), (b'n' ∷ b'o' ∷ b'w' ∷ []))
      ∷ ((b'x' ∷ b'-' ∷ b'a' ∷ []), (b'1' ∷ []))
      ∷ []
unfolding submit_response aegon.Protocol.is_all_lower_ascii aegon.Protocol.to_lower_ascii
small_fields = refl

-- Proxy-Connection is sent, although RFC 9113 keeps it out of HTTP/2.
proxy_connection_sent :
    submit_response (b'n' ∷ b'o' ∷ b'w' ∷ []) [] (record small { headers = proxy_header })
    ≡ ((b':' ∷ b's' ∷ b't' ∷ b'a' ∷ b't' ∷ b'u' ∷ b's' ∷ []), (b'2' ∷ b'0' ∷ b'0' ∷ []))
      ∷ (
        (b'c' ∷ b'o' ∷ b'n' ∷ b't' ∷ b'e' ∷ b'n' ∷ b't' ∷ b'-' ∷ b'l' ∷ b'e' ∷ b'n' ∷ b'g' ∷ b't'
            ∷ b'h' ∷ []),
        (b'5' ∷ []),
      )
      ∷ ((b'd' ∷ b'a' ∷ b't' ∷ b'e' ∷ []), (b'n' ∷ b'o' ∷ b'w' ∷ []))
      ∷ (
        (b'p' ∷ b'r' ∷ b'o' ∷ b'x' ∷ b'y' ∷ b'-' ∷ b'c' ∷ b'o' ∷ b'n' ∷ b'n' ∷ b'e' ∷ b'c' ∷ b't'
            ∷ b'i' ∷ b'o' ∷ b'n' ∷ []),
        (b'c' ∷ b'l' ∷ b'o' ∷ b's' ∷ b'e' ∷ []),
      )
      ∷ []
unfolding submit_response aegon.Protocol.is_all_lower_ascii aegon.Protocol.to_lower_ascii
proxy_connection_sent = refl

-- The names of trailers are not looked at.
abbrev only_trailers : Response
only_trailers = record small {
  headers = empty_map;
  trailers = two_headers;
  is_trailers_only = true;
}

connection_trailer :
    submit_response (b'n' ∷ b'o' ∷ b'w' ∷ []) [] only_trailers
    ≡ ((b':' ∷ b's' ∷ b't' ∷ b'a' ∷ b't' ∷ b'u' ∷ b's' ∷ []), (b'2' ∷ b'0' ∷ b'0' ∷ []))
      ∷ (
        (b'c' ∷ b'o' ∷ b'n' ∷ b'n' ∷ b'e' ∷ b'c' ∷ b't' ∷ b'i' ∷ b'o' ∷ b'n' ∷ []),
        (b'c' ∷ b'l' ∷ b'o' ∷ b's' ∷ b'e' ∷ []),
      )
      ∷ ((b'x' ∷ b'-' ∷ b'a' ∷ []), (b'1' ∷ []))
      ∷ []
unfolding submit_response aegon.Protocol.is_all_lower_ascii aegon.Protocol.to_lower_ascii
connection_trailer = refl
