-- ===== src/Http1/Bounds.antt =====
-- src/http/v1/Http1Parser.h: the size of the body of a completed request.
use aegon.Base.{
  ℕ, zero, suc, ◌+◌, ◌-◌, ◌^◌, ◌≤◌, ◌<◌, ◌≡◌, [], ◌∷◌, ◌++◌, arith, length, length-append,
  length-take, length-drop, take, drop, Option-cases, inl, inr,
}
use aegon.Base.Bytes.{Bytes}
use aegon.Simd.{Target}
use aegon.Simd.Find.{find_crlf, find_double_crlf}
use aegon.Simd.Bounds.{find-bound}
use aegon.Http1.Result.{Parsed, ok, Parsed-cases}
use aegon.Http1.Line.{Limits}
use aegon.Http1.Headers.{crlf_at}
use aegon.Http1.Chunks.{
  last_chunk, chunk_round, chunk_size_of, chunk_data, parse_chunks, append_chunk, byte_at, word,
}

module _ (t : Target) (limits : Limits) (buffer : Bytes) where
  abbrev pub IsBody : Bytes × ℕ → Type 0
  IsBody r = (length r.0 ≤ limits.max_body_size) × (r.1 ≤ length buffer)

  last_chunk-IsBody :
      (cc : ℕ) (decoded : Bytes) (r : Bytes × ℕ)
      → length decoded ≤ limits.max_body_size
      → last_chunk t buffer cc decoded ≡ ok r
      → IsBody r
  unfolding last_chunk crlf_at
  last_chunk-IsBody cc decoded r h e = elim (Option-cases (find_double_crlf t buffer cc)) [
    | inl none_found ↦ ground (arith, h, e, none_found)
    | inr (k, found) ↦
        ground (arith, h, e, found, find-bound 13 (10 ∷ 13 ∷ 10 ∷ []) t buffer cc k found)
  ]

  module _ (small : length buffer + limits.max_body_size < 2 ^ 64)
      (next : ℕ → Bytes → Parsed (Bytes × ℕ))
      (next-IsBody : (cc : ℕ) (decoded : Bytes) (r : Bytes × ℕ)
        → length decoded ≤ limits.max_body_size
        → next cc decoded ≡ ok r
        → IsBody r) where
    -- The body that was appended is the one that was measured: its length does not wrap.
    chunk_data-IsBody :
        (cc size : ℕ) (decoded : Bytes) (r : Bytes × ℕ)
        → length decoded ≤ limits.max_body_size
        → chunk_data next limits buffer cc size decoded ≡ ok r
        → IsBody r
    unfolding chunk_data byte_at append_chunk
    chunk_data-IsBody cc size decoded r h e = ground (
      arith,
      h,
      e,
      small,
      length-append decoded (take size (drop cc buffer)),
      length-take size (drop cc buffer),
      length-drop cc buffer,
      next-IsBody (word (cc + word (size + 2))) (decoded ++ take size (drop cc buffer)) r,
    )

    chunk_round-IsBody :
        (cc : ℕ) (decoded : Bytes) (r : Bytes × ℕ)
        → length decoded ≤ limits.max_body_size
        → chunk_round next limits buffer t cc decoded ≡ ok r
        → IsBody r
    chunk_round-IsBody cc decoded r h e = elim (Option-cases (find_crlf t buffer cc)) [
      | inl none_found ↦ ground (arith, e, none_found)
      | inr (k, found) ↦ elim (Parsed-cases (chunk_size_of t (take (k - cc) (drop cc buffer)))) [
        | inl (size, ended) ↦ ground (
          arith,
          e,
          found,
          ended,
          last_chunk-IsBody (k + 2) decoded r h,
          chunk_data-IsBody (k + 2) size decoded r h,
        )
        | inr (inl (s, ended)) ↦ ground (arith, e, found, ended)
        | inr (inr ended) ↦ ground (arith, e, found, ended)
      ]
    ]

  pub parse_chunks-IsBody :
      (small : length buffer + limits.max_body_size < 2 ^ 64) (fuel cc : ℕ) (decoded : Bytes)
      (r : Bytes × ℕ)
      → length decoded ≤ limits.max_body_size
      → parse_chunks fuel t limits buffer cc decoded ≡ ok r
      → IsBody r
  unfolding parse_chunks
  parse_chunks-IsBody small zero cc decoded r h e = ground (arith, e)
  parse_chunks-IsBody small (suc fuel) cc decoded r h e =
      chunk_round-IsBody small (parse_chunks fuel t limits buffer) (parse_chunks-IsBody small fuel)
        cc decoded r h e
