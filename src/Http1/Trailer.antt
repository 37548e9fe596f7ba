-- ===== src/Http1/Trailer.antt =====
-- src/http/v1/Http1Parser.h: where the trailer section of a chunked body ends.
use aegon.Base.{
  ℕ, ◌+◌, ◌≡◌, refl, ap, ◌∙◌, false, some, [], ◌∷◌, ◌++◌, ◌==◌, arith, length, drop, get_or,
}
use aegon.Base.Bytes.{Bytes}
use aegon.Simd.{Target}
use aegon.Simd.Find.{find_double_crlf, starts_with, shift}
use aegon.Simd.Search.{index_of, find-index_of}
use aegon.Http1.Result.{ok}
use aegon.Http1.Chunks.{last_chunk}

drop-append : (xs ys : Bytes) → drop (length xs) (xs ++ ys) ≡ ys
drop-append [] ys = refl
drop-append (x ∷ xs) ys = drop-append xs ys

get_or-append : (xs ys : Bytes) (d : ℕ) → get_or (xs ++ ys) (length xs) d ≡ get_or ys 0 d
get_or-append [] ys d = refl
get_or-append (x ∷ xs) ys d = get_or-append xs ys d

-- The count of a search starts where it is told to.
index_of-shift :
    (p : Bytes) (i j : ℕ) (rest : Bytes) → index_of p (i + j) rest ≡ shift i (index_of p j rest)
unfolding index_of
index_of-shift p i j [] = refl
index_of-shift p i j (x ∷ rest) =
    let next : i + j + 1 ≡ i + (j + 1) = omega arith in
    ground (arith, index_of-shift p i (j + 1) rest, ap (λ n. index_of p n rest) next)

abbrev pub double_crlf : Bytes
double_crlf = 13 ∷ 10 ∷ 13 ∷ 10 ∷ []

abbrev pub crlf : Bytes
crlf = 13 ∷ 10 ∷ []

module _ (t : Target) (before : Bytes) (x : ℕ) (rest decoded : Bytes) (k : ℕ) where
  -- What follows the line of a chunk of size zero: a blank line, then the next request.
  abbrev pub pipelined : Bytes
  pipelined = before ++ (crlf ++ (x ∷ rest))

  -- The blank line that ends the body has one line end: the search goes past it.
  index_of-pipelined :
      (x == 13) ≡ false
      → index_of double_crlf 0 (crlf ++ (x ∷ rest)) ≡ shift 2 (index_of double_crlf 0 (x ∷ rest))
  unfolding index_of starts_with
  index_of-pipelined h = rw h (index_of-shift double_crlf 2 1 rest)

  find-pipelined :
      (x == 13) ≡ false
      → index_of double_crlf 0 (x ∷ rest) ≡ some k
      → find_double_crlf t pipelined (length before) ≡ some (length before + (2 + k))
  find-pipelined h e =
      find-index_of 13 (10 ∷ 13 ∷ 10 ∷ []) t pipelined (length before)
      ∙ ap (λ bs. shift (length before) (index_of double_crlf 0 bs))
          (drop-append before (crlf ++ (x ∷ rest)))
      ∙ ap (shift (length before)) (index_of-pipelined h ∙ ap (shift 2) e)

  -- Where a chunked body without trailers is followed by more bytes of which the first is no CR and
  -- which hold a blank line, everything up to and including that blank line is consumed with it.
  pub last_chunk-pipelined :
      (x == 13) ≡ false
      → index_of double_crlf 0 (x ∷ rest) ≡ some k
      → last_chunk t pipelined (length before) decoded ≡ ok (decoded, length before + 2 + k + 4)
  unfolding last_chunk
  last_chunk-pipelined h e =
      rw (get_or-append before (crlf ++ (x ∷ rest)) 0, find-pipelined h e) (ground arith)
