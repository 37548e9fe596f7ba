-- ===== src/Http1/Chunk.antt =====
-- src/http/v1/Http1Parser.h: one chunk of a body, against its reading without wrap-around.
use aegon.Base.{
  ℕ, ◌+◌, ◌-◌, ◌^◌, ◌<◌, ◌≤◌, ◌≡◌, not, ◌++◌, ltb, arith, if◌then◌else◌, length, take, drop, get_or,
}
use aegon.Base.Bytes.{Bytes}
use aegon.Http1.Result.{Parsed, stop, crash, error, need_more_data, payload_too_large}
use aegon.Http1.Line.{Limits}
use aegon.Http1.Headers.{crlf_at}
use aegon.Http1.Chunks.{chunk_data, byte_at, append_chunk, word}

module _ (next : ℕ → Bytes → Parsed (Bytes × ℕ)) (limits : Limits) (buffer : Bytes) where
  -- A chunk and its line end, with numbers that have no bound.
  unfoldable pub read_chunk : ℕ → ℕ → Bytes → Parsed (Bytes × ℕ)
  unfolding crlf_at
  read_chunk cc chunk_size decoded =
      if ltb (length buffer) (cc + chunk_size + 2)
      then stop need_more_data
      else if not (crlf_at buffer (cc + chunk_size))
      then stop error
      else if ltb limits.max_body_size (length decoded + chunk_size)
      then stop payload_too_large
      else next (cc + chunk_size + 2) (decoded ++ take chunk_size (drop cc buffer))

  -- Where neither sum reaches 2 ^ 64, a chunk is read as it would be with numbers that have no
  -- bound, and no read leaves the buffer.
  pub chunk_data-read_chunk :
      (cc chunk_size : ℕ) (decoded : Bytes)
      → cc + chunk_size + 2 < 2 ^ 64
      → length decoded + chunk_size < 2 ^ 64
      → chunk_data next limits buffer cc chunk_size decoded ≡ read_chunk cc chunk_size decoded
  unfolding chunk_data byte_at append_chunk read_chunk crlf_at
  chunk_data-read_chunk cc chunk_size decoded h k =
      let end : word (cc + chunk_size + 2) ≡ cc + chunk_size + 2 = omega (arith, h) in
      let at : word (cc + chunk_size) ≡ cc + chunk_size = omega (arith, h) in
      let at' : word (cc + chunk_size + 1) ≡ cc + chunk_size + 1 = omega (arith, h) in
      let sum : word (length decoded + chunk_size) ≡ length decoded + chunk_size =
        omega (arith, k) in
      let past : word (cc + word (chunk_size + 2)) ≡ cc + chunk_size + 2 = omega (arith, h) in
      rw (end, at, at', sum, past) (ground arith)

  -- Once the body has two bytes, a chunk whose size is 2 ^ 64 - 2 passes every check with the line
  -- end in front of it, and then that many bytes are appended to the body.
  pub chunk_data-crash :
      (cc chunk_size : ℕ) (decoded : Bytes)
      → chunk_size + 2 ≡ 2 ^ 64
      → 2 ≤ cc
      → cc ≤ length buffer
      → length buffer < 2 ^ 64
      → get_or buffer (cc - 2) 0 ≡ 13
      → get_or buffer (cc - 1) 0 ≡ 10
      → 2 ≤ length decoded
      → length decoded ≤ limits.max_body_size
      → limits.max_body_size < 2 ^ 64
      → chunk_data next limits buffer cc chunk_size decoded ≡ crash
  unfolding chunk_data byte_at append_chunk
  chunk_data-crash cc chunk_size decoded huge low inside small cr lf two fits bounded =
      let end : word (cc + chunk_size + 2) ≡ cc = omega (arith, huge, low, inside, small) in
      let at : word (cc + chunk_size) ≡ cc - 2 = omega (arith, huge, low, inside, small) in
      let at' : word (cc + chunk_size + 1) ≡ cc - 1 = omega (arith, huge, low, inside, small) in
      let sum : word (length decoded + chunk_size) ≡ length decoded - 2 =
        omega (arith, huge, two, fits, bounded) in
      rw (end, at, at', sum, cr, lf) (ground (arith, inside, low, fits, small, huge))
