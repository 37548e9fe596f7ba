-- ===== src/Http1/Fuel.antt =====
-- src/http/v1/Http1Parser.h: the turns of the loops over the buffer.
use aegon.Base.{ℕ, zero, suc}
use aegon.Base.Bytes.{Bytes}
use aegon.Simd.{Target}
use aegon.Simd.Search.{index_of}
use aegon.Http1.Result.{Parsed}
use aegon.Http1.Line.{Limits}
use aegon.Http1.Fields.{Head}
use aegon.Http1.Headers.{crlf_at, header_round, header_line}
use aegon.Http1.Chunks.{chunk_data, chunk_round, chunk_size_of, last_chunk}

module _ (t : Target) (limits : Limits) (buffer : Bytes) where
  module _ (req_line_end : ℕ) where
    -- `n` turns of the loop over the header lines, and then `below` in place of the turns that follow.
    unfoldable pub header_turns : (ℕ → Head → Parsed (ℕ × Head)) → ℕ → ℕ → Head → Parsed (ℕ × Head)
    unfolding header_line crlf_at
    header_turns below zero cursor s = below cursor s
    header_turns below (suc n) cursor s =
        header_round (header_turns below n) t limits buffer req_line_end cursor s

  -- `n` turns of the loop over the chunks, and then `below` in place of the turns that follow.
  unfoldable pub chunk_turns : (ℕ → Bytes → Parsed (Bytes × ℕ)) → ℕ → ℕ → Bytes → Parsed (Bytes × ℕ)
  unfolding index_of chunk_size_of last_chunk chunk_data
  chunk_turns below zero cursor decoded = below cursor decoded
  chunk_turns below (suc n) cursor decoded =
      chunk_round (chunk_turns below n) limits buffer t cursor decoded
