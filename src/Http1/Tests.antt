-- ===== src/Http1/Tests.antt =====
-- Runs of the request parser.
use aegon.Base.{none, ℕ, ◌+◌, ◌-◌, ◌^◌, ◌≡◌, refl, some, [], ◌∷◌, ◌++◌, length, drop, arith}
use aegon.Base.Bytes.{Bytes}
use aegon.Base.Decimal.{is_digit}
use aegon.Simd.{portable, sse42}
use aegon.Simd.Check.{all_bytes}
use aegon.Simd.Search.{index_of}
use aegon.Http1.Result.{Parsed, ok, stop, crash, error, ◌>>=◌}
use aegon.Http1.Text.{get, parse_hex_size, parse_valid_content_length}
use aegon.Http1.Line.{Limits, http1_1}
use aegon.Http1.Fields.{empty_head}
use aegon.Http1.Chunks.{last_chunk, chunk_data}
use aegon.Http1.Parse.{Request, parse}
use aegon.Http1.Number.{decimal, hexadecimal, is_hex_digit, parse_numbers}
use aegon.Http1.Safe.{IsSafe, parse-IsSafe}
use aegon.Http1.Chunk.{read_chunk, chunk_data-read_chunk, chunk_data-crash}
use aegon.Http1.Trailer.{double_crlf, pipelined, last_chunk-pipelined}
use aegon.Http1.Fields.{Head}
use aegon.Base.{List}

abbrev default_limits : Limits
default_limits = record {
  max_uri_length = 8192;
  max_headers_size = 65536;
  max_header_count = 100;
  max_body_size = 16777216;
}

abbrev crlf : Bytes
crlf = 13 ∷ 10 ∷ []

abbrev simple : Bytes
simple =
    (b'G' ∷ b'E' ∷ b'T' ∷ 32 ∷ b'/' ∷ b'a' ∷ b'?' ∷ b'b' ∷ 32 ∷ b'H' ∷ b'T' ∷ b'T' ∷ b'P' ∷ b'/'
      ∷ b'1' ∷ b'.' ∷ b'1' ∷ 13 ∷ 10 ∷ b'H' ∷ b'o' ∷ b's' ∷ b't' ∷ b':' ∷ 32 ∷ b'x' ∷ 13 ∷ 10 ∷ 13
      ∷ 10 ∷ [])

abbrev with_length : Bytes
with_length =
    (b'P' ∷ b'O' ∷ b'S' ∷ b'T' ∷ 32 ∷ b'/' ∷ 32 ∷ b'H' ∷ b'T' ∷ b'T' ∷ b'P' ∷ b'/' ∷ b'1' ∷ b'.'
      ∷ b'1' ∷ 13 ∷ 10 ∷ b'H' ∷ b'o' ∷ b's' ∷ b't' ∷ b':' ∷ 32 ∷ b'x' ∷ 13 ∷ 10 ∷ b'C' ∷ b'o' ∷ b'n'
      ∷ b't' ∷ b'e' ∷ b'n' ∷ b't' ∷ b'-' ∷ b'L' ∷ b'e' ∷ b'n' ∷ b'g' ∷ b't' ∷ b'h' ∷ b':' ∷ 32
      ∷ b'2' ∷ 13 ∷ 10 ∷ 13 ∷ 10 ∷ b'a' ∷ b'b' ∷ b'G' ∷ b'E' ∷ b'T' ∷ [])

abbrev chunked_head : Bytes
chunked_head =
    (b'P' ∷ b'O' ∷ b'S' ∷ b'T' ∷ 32 ∷ b'/' ∷ 32 ∷ b'H' ∷ b'T' ∷ b'T' ∷ b'P' ∷ b'/' ∷ b'1' ∷ b'.'
      ∷ b'1' ∷ 13 ∷ 10 ∷ b'H' ∷ b'o' ∷ b's' ∷ b't' ∷ b':' ∷ 32 ∷ b'x' ∷ 13 ∷ 10 ∷ b'T' ∷ b'r' ∷ b'a'
      ∷ b'n' ∷ b's' ∷ b'f' ∷ b'e' ∷ b'r' ∷ b'-' ∷ b'E' ∷ b'n' ∷ b'c' ∷ b'o' ∷ b'd' ∷ b'i' ∷ b'n'
      ∷ b'g' ∷ b':' ∷ 32 ∷ b'c' ∷ b'h' ∷ b'u' ∷ b'n' ∷ b'k' ∷ b'e' ∷ b'd' ∷ 13 ∷ 10 ∷ 13 ∷ 10 ∷ [])

abbrev body_of : Parsed (Request × ℕ) → Parsed (Bytes × ℕ)
body_of r = r >>= λ p. ok (p.0.body, p.1)

abbrev target_of : Parsed (Request × ℕ) → Parsed (Bytes × Bytes)
target_of r = r >>= λ p. ok (p.0.line.path, p.0.line.query)

simple_target :
    target_of (parse portable default_limits simple) ≡ ok ((b'/' ∷ b'a' ∷ []), (b'b' ∷ []))
unfolding parse
simple_target = refl

length_body : body_of (parse portable default_limits with_length) ≡ ok ((b'a' ∷ b'b' ∷ []), 49)
unfolding parse
length_body = refl

chunk_body :
    body_of (
      parse portable default_limits
        (chunked_head ++ (b'2' ∷ 13 ∷ 10 ∷ b'a' ∷ b'b' ∷ 13 ∷ 10 ∷ b'0' ∷ 13 ∷ 10 ∷ 13 ∷ 10 ∷ [])))
    ≡ ok ((b'a' ∷ b'b' ∷ []), length chunked_head + 12)
unfolding parse
chunk_body = refl

no_host :
    parse portable default_limits (
      b'G' ∷ b'E' ∷ b'T' ∷ 32 ∷ b'/' ∷ 32 ∷ b'H' ∷ b'T' ∷ b'T' ∷ b'P' ∷ b'/' ∷ b'1' ∷ b'.' ∷ b'1'
      ∷ 13 ∷ 10 ∷ 13 ∷ 10 ∷ [])
    ≡ stop error
unfolding parse
no_host = refl

-- The second size is 2 ^ 64 - 2.
wrapped_size :
    parse portable default_limits (
      chunked_head
      ++ (b'2' ∷ 13 ∷ 10 ∷ b'a' ∷ b'b' ∷ 13 ∷ 10 ∷ b'F' ∷ b'F' ∷ b'F' ∷ b'F' ∷ b'F' ∷ b'F' ∷ b'F'
          ∷ b'F' ∷ b'F' ∷ b'F' ∷ b'F' ∷ b'F' ∷ b'F' ∷ b'F' ∷ b'F' ∷ b'E' ∷ 13 ∷ 10 ∷ []))
    ≡ crash
unfolding parse
wrapped_size = refl

-- A second request behind a chunked one.
swallowed :
    body_of
      (parse portable default_limits (chunked_head ++ (b'0' ∷ 13 ∷ 10 ∷ 13 ∷ 10 ∷ []) ++ simple))
    ≡ ok ([], length chunked_head + 5 + length simple)
unfolding parse
swallowed = refl

-- An instance of each theorem.
abbrev empty_request : Request
empty_request = record {
  line = record { method = get; path = []; query = []; version = http1_1 };
  head = empty_head;
  body = [];
}

abbrev completed : Parsed (Request × ℕ) → Request × ℕ
completed (ok r) = r
completed (stop s) = (empty_request, 0)
completed crash = (empty_request, 0)

abbrev simple_result : Request × ℕ
simple_result = completed (parse portable default_limits simple)

simple_completes : parse portable default_limits simple ≡ ok simple_result
unfolding parse
simple_completes = refl

parse-IsSafe_example : IsSafe default_limits simple simple_result.0 simple_result.1
parse-IsSafe_example =
    parse-IsSafe portable default_limits simple simple_result.0 simple_result.1 (ground arith)
      (omega arith) simple_completes

parse_numbers_example :
    (parse_valid_content_length (b'a' ∷ b'F' ∷ []) ≡ none)
    × (parse_hex_size (b'a' ∷ b'F' ∷ []) ≡ some 175)
unfolding decimal hexadecimal all_bytes is_digit is_hex_digit
parse_numbers_example = parse_numbers (b'a' ∷ b'F' ∷ [])

abbrev no_more : ℕ → Bytes → Parsed (Bytes × ℕ)
no_more c d = ok (d, c)

chunk_data-read_chunk_example :
    chunk_data no_more default_limits (b'a' ∷ b'b' ∷ 13 ∷ 10 ∷ []) 0 2 []
    ≡ read_chunk no_more default_limits (b'a' ∷ b'b' ∷ 13 ∷ 10 ∷ []) 0 2 []
chunk_data-read_chunk_example =
    chunk_data-read_chunk no_more default_limits (b'a' ∷ b'b' ∷ 13 ∷ 10 ∷ []) 0 2 [] (omega arith)
      (omega arith)

chunk_data-crash_example :
    chunk_data no_more default_limits crlf 2 (2 ^ 64 - 2) (b'a' ∷ b'b' ∷ []) ≡ crash
chunk_data-crash_example =
    chunk_data-crash no_more default_limits crlf 2 (2 ^ 64 - 2) (b'a' ∷ b'b' ∷ []) refl
      (omega arith) (omega arith) (omega arith) refl refl (omega arith) (omega arith) (omega arith)

simple_end : index_of double_crlf 0 simple ≡ some 26
unfolding index_of
simple_end = refl

last_chunk-pipelined_example :
    last_chunk sse42 (pipelined portable (b'0' ∷ 13 ∷ 10 ∷ []) b'G' (drop 1 simple) [] 26) 3 []
    ≡ ok ([], 3 + 2 + 26 + 4)
last_chunk-pipelined_example =
    last_chunk-pipelined sse42 (b'0' ∷ 13 ∷ 10 ∷ []) b'G' (drop 1 simple) [] 26 refl simple_end

abbrev no_headers : ℕ → Head → Parsed (ℕ × Head)
no_headers c s = crash

abbrev no_codings : Bytes → List Bytes
no_codings t = []

abbrev no_extensions : Bytes → Parsed (Unit {0})
no_extensions t = crash
