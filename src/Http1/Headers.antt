-- ===== src/Http1/Headers.antt =====
-- src/http/v1/Http1Parser.h: the loop over the header lines.
use aegon.Base.{
  ℕ, zero, suc, ◌+◌, ◌-◌, Bool, false, not, ◌&&◌, ◌||◌, none, some, [], ◌∷◌, ltb, leb, ◌==◌,
  if◌then◌else◌, length, take, drop, get_or,
}
use aegon.Base.Bytes.{Bytes}
use aegon.HeaderMap.{add, size}
use aegon.Simd.{Target}
use aegon.Simd.Find.{find, find_char, find_crlf}
use aegon.Simd.Check.{all_bytes, validate_header_value}
use aegon.Http1.Result.{
  Parsed, ok, stop, error, need_more_data, headers_too_large, ◌>>◌, ◌>>=◌, require, require_some,
}
use aegon.Http1.Text.{is_blank, is_tchar, validate_tchars, trim_front, trim_back, trim}
use aegon.Http1.Line.{Limits}
use aegon.Http1.Fields.{Head, field}

-- name.back() == ' ' || name.back() == '\t'
abbrev pub ends_blank : Bytes → Bool
ends_blank [] = false
ends_blank (c ∷ []) = is_blank c
ends_blank (c ∷ d ∷ cs) = ends_blank (d ∷ cs)

unfoldable pub add_field : Limits → Bytes → Bytes → Head → Parsed Head
unfolding add field
add_field limits name value s =
    field limits name value (record s { headers = add name value s.headers })

unfoldable pub header_line : Target → Limits → Bytes → Head → Parsed Head
unfolding find is_tchar all_bytes validate_header_value add_field trim_front trim_back
header_line t limits line s = require_some (find_char t line b':' 0) error >>= λ colon.
    require (not (colon == 0)) error
    >> (require (validate_tchars (take colon line)) error
        >> (require (not (ends_blank (take colon line))) error
            >> (require (validate_header_value t (drop (suc colon) line)) error
                >> add_field limits (take colon line) (trim (drop (suc colon) line)) s)))

-- buffer.size() >= i + 2 && buffer[i] == '\r' && buffer[i + 1] == '\n'
unfoldable pub crlf_at : Bytes → ℕ → Bool
crlf_at buffer i =
    leb (i + 2) (length buffer) && get_or buffer i 0 == 13 && get_or buffer (i + 1) 0 == 10

abbrev pub over_limits : Limits → ℕ → ℕ → Head → Bool
over_limits limits req_line_end cursor s =
    ltb limits.max_headers_size (cursor - req_line_end)
    || leb limits.max_header_count (size s.headers)

-- A line that is not yet complete.
abbrev pub no_line_end : Limits → Bytes → ℕ → Parsed (ℕ × Head)
no_line_end limits buffer req_line_end = stop (
    if ltb limits.max_headers_size (length buffer - req_line_end)
    then headers_too_large
    else need_more_data)

module _ (next : ℕ → Head → Parsed (ℕ × Head)) (t : Target) (limits : Limits) (buffer : Bytes) where
  abbrev pub next_line : ℕ → ℕ → Head → Parsed (ℕ × Head)
  next_line req_line_end cursor s = elim (find_crlf t buffer cursor) [
    | none ↦ no_line_end limits buffer req_line_end
    | some header_end ↦
        header_line t limits (take (header_end - cursor) (drop cursor buffer)) s >>= λ s'.
        next (header_end + 2) s'
  ]

  -- One turn of the loop at `cursor`; `next` stands for the turns that follow.
  abbrev pub header_round : ℕ → ℕ → Head → Parsed (ℕ × Head)
  header_round req_line_end cursor s =
      require (ltb cursor (length buffer)) need_more_data
      >> (require (not (over_limits limits req_line_end cursor s)) headers_too_large
          >> (if crlf_at buffer cursor
              then ok (cursor + 2, s)
              else require (not (get_or buffer cursor 0 == 13 && cursor + 1 == length buffer))
                  need_more_data
                >> next_line req_line_end cursor s))

-- The position past the blank line, and what was read.
unfoldable pub parse_headers : ℕ → Target → Limits → Bytes → ℕ → ℕ → Head → Parsed (ℕ × Head)
unfolding find header_line crlf_at
parse_headers zero t limits buffer req_line_end cursor s = stop need_more_data
parse_headers (suc fuel) t limits buffer req_line_end cursor s =
    header_round (parse_headers fuel t limits buffer req_line_end) t limits buffer req_line_end
      cursor s
