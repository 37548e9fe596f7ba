-- ===== src/Http1/Chunks.antt =====
-- src/http/v1/Http1Parser.h: the loop over the chunks of a body.
use aegon.Base.{
  ℕ, zero, suc, ◌+◌, ◌-◌, ◌%◌, ◌^◌, Bool, false, not, ◌&&◌, ◌||◌, none, some, [], ◌∷◌, ◌++◌, ltb,
  leb, ◌==◌, if◌then◌else◌, length, take, drop, get_or,
}
use aegon.Base.Bytes.{Bytes}
use aegon.Simd.{Target}
use aegon.Simd.Find.{find, find_char, find_crlf, find_double_crlf}
use aegon.Simd.Search.{index_of}
use aegon.Simd.Check.{all_bytes}
use aegon.Http1.Result.{
  Parsed, ok, stop, crash, error, need_more_data, payload_too_large, ◌>>◌, ◌>>=◌, require,
  require_some,
}
use aegon.Http1.Text.{
  is_empty, is_tchar, validate_tchars, trim, trim_front, trim_back, parse_hex_size, find_where,
}
use aegon.Http1.Line.{Limits}
use aegon.Http1.Fields.{is_some}
use aegon.Http1.Headers.{crlf_at}

abbrev pub word : ℕ → ℕ
word n = n % 2 ^ 64

-- The name of an extension, without the blanks around it.
unfoldable pub extension_name : Bytes → Parsed (Unit {0})
unfolding trim_front trim_back is_tchar all_bytes
extension_name name =
    let ext_name = trim name in
    require (not (is_empty ext_name)) error >> require (validate_tchars ext_name) error

-- uc == '\r' || uc < 0x20 || uc == 0x7F
abbrev pub is_extension_char : ℕ → Bool
is_extension_char uc = not (uc == 13 || ltb uc 0x20 || uc == 0x7f)

abbrev pub extension_value : (Bytes → Parsed (Unit {0})) → Bytes → Parsed (Unit {0})
extension_value next v = elim (index_of (b';' ∷ []) 0 v) [
  | none ↦ require (all_bytes is_extension_char v) error
  | some next_semi ↦
      require (all_bytes is_extension_char (take next_semi v)) error
      >> next (drop (suc next_semi) v)
]

-- One turn of the loop, on the text from `ext_pos` on.
abbrev pub extension_round : (Bytes → Parsed (Unit {0})) → Bytes → Parsed (Unit {0})
extension_round next [] = ok tt
extension_round next (c ∷ cs) = elim (find_where (λ x. x == b';' || x == b'=') (c ∷ cs)) [
  | none ↦ extension_name (c ∷ cs)
  | some i ↦
      extension_name (take i (c ∷ cs))
      >> (if get_or (c ∷ cs) i 0 == b';'
          then next (drop (suc i) (c ∷ cs))
          else extension_value next (drop (suc i) (c ∷ cs)))
]

-- while (ext_pos < ext.size()); each turn drops a character.
unfoldable pub extensions : ℕ → Bytes → Parsed (Unit {0})
unfolding find_where extension_name index_of all_bytes
extensions zero ext = ok tt
extensions (suc fuel) ext = extension_round (extensions fuel) ext

-- The line in front of a chunk.
unfoldable pub chunk_size_of : Target → Bytes → Parsed ℕ
unfolding find extensions parse_hex_size
chunk_size_of t size_line = elim (find_char t size_line b';' 0) [
  | none ↦ require_some (parse_hex_size size_line) error
  | some semi ↦
      let ext = drop (suc semi) size_line in
      require (not (is_empty ext) && leb (length ext) 1024) error
      >> (extensions (length ext) ext >> require_some (parse_hex_size (take semi size_line)) error)
]

-- lf != npos && (lf == chunk_cursor || buffer[lf - 1] != '\r')
abbrev pub bare_line_feed : Bytes → ℕ → Bool
bare_line_feed buffer cc = elim (index_of (10 ∷ []) 0 (drop cc buffer)) [
  | none ↦ false
  | some lf ↦ lf == 0 || not (get_or buffer (cc + lf - 1) 0 == 13)
]

-- Past the line of the chunk of size zero.
unfoldable pub last_chunk : Target → Bytes → ℕ → Bytes → Parsed (Bytes × ℕ)
unfolding find crlf_at index_of
last_chunk t buffer cc decoded =
    require (not (ltb cc (length buffer) && get_or buffer cc 0 == 10)) error
    >> elim (find_double_crlf t buffer cc) [
      | some trailer_end ↦ ok (decoded, trailer_end + 4)
      | none ↦
          if crlf_at buffer cc
          then ok (decoded, cc + 2)
          else stop (if bare_line_feed buffer cc then error else need_more_data)
    ]

-- buffer[i], which must be inside.
unfoldable pub byte_at : Bytes → ℕ → Parsed ℕ
byte_at buffer i = if ltb i (length buffer) then ok (get_or buffer i 0) else crash

-- decoded_body.append(buffer.data() + cc, n)
unfoldable pub append_chunk : Bytes → ℕ → ℕ → Bytes → Parsed Bytes
append_chunk buffer cc n decoded =
    if leb (cc + n) (length buffer) then ok (decoded ++ take n (drop cc buffer)) else crash

module _ (next : ℕ → Bytes → Parsed (Bytes × ℕ)) (limits : Limits) (buffer : Bytes) where
  -- The additions are those of 64-bit words.
  unfoldable pub chunk_data : ℕ → ℕ → Bytes → Parsed (Bytes × ℕ)
  unfolding byte_at append_chunk
  chunk_data cc chunk_size decoded =
      require (leb (word (cc + chunk_size + 2)) (length buffer)) need_more_data
      >> (byte_at buffer (word (cc + chunk_size)) >>= λ c.
          require (c == 13) error
          >> (byte_at buffer (word (cc + chunk_size + 1)) >>= λ d.
              require (d == 10) error
              >> (require (leb (word (length decoded + chunk_size)) limits.max_body_size)
                    payload_too_large
                  >> (append_chunk buffer cc chunk_size decoded >>= λ decoded'.
                      next (word (cc + word (chunk_size + 2))) decoded'))))

  -- One turn of the loop at `cc`; `next` stands for the turns that follow.
  abbrev pub chunk_round : Target → ℕ → Bytes → Parsed (Bytes × ℕ)
  chunk_round t cc decoded = elim (find_crlf t buffer cc) [
    | none ↦
        stop (if is_some (index_of (10 ∷ []) 0 (drop cc buffer)) then error else need_more_data)
    | some line_end ↦ chunk_size_of t (take (line_end - cc) (drop cc buffer)) >>= λ chunk_size.
        if chunk_size == 0
        then last_chunk t buffer (line_end + 2) decoded
        else chunk_data (line_end + 2) chunk_size decoded
  ]

-- The decoded body, and the position past its last chunk and trailers.
unfoldable pub parse_chunks : ℕ → Target → Limits → Bytes → ℕ → Bytes → Parsed (Bytes × ℕ)
unfolding find index_of chunk_size_of last_chunk chunk_data
parse_chunks zero t limits buffer cc decoded = stop need_more_data
parse_chunks (suc fuel) t limits buffer cc decoded =
    chunk_round (parse_chunks fuel t limits buffer) limits buffer t cc decoded
