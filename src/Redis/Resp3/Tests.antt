-- ===== src/Redis/Resp3/Tests.antt =====
-- Runs of the RESP3 parser, and its theorems at concrete buffers.
use aegon.Base.{◌≡◌, refl, Option, none, List, [], ◌∷◌, ◌++◌, arith}
use aegon.Base.Bytes.{Bytes}
use aegon.Base.Decimal.{pos, from_chars, read_int64}
use aegon.Redis.Resp3.{
  ParseStatus, done, need_more_data, throws, null, integer, bulk_string, array, cons, nil, parse,
  crlf, serialize_command,
}
use aegon.Redis.Resp3.RoundTrip.{parse-serialize_command}
use aegon.Redis.Resp3.Rollback.{Leaves, parse-Leaves}
use aegon.Redis.Resp3.Depth.{levels, parse-levels}

-- A `std::stod` that reads nothing, and the text of a double as its value.
abbrev no_double : Bytes → Option Bytes
no_double cs = none

abbrev run : Bytes → ParseStatus Bytes × Bytes
run buf = parse no_double 1000 9 buf

abbrev get_k : List Bytes
get_k = (b'G' ∷ b'E' ∷ b'T' ∷ []) ∷ (b'k' ∷ []) ∷ []

abbrev nested : Bytes
nested = b'*' ∷ b'2' ∷ crlf (b':' ∷ b'7' ∷ crlf (b'*' ∷ b'1' ∷ crlf (b'$' ∷ b'-' ∷ b'1' ∷ crlf [])))

nested-run :
    run nested ≡ (done (array (cons (integer (pos 7)) (cons (array (cons null nil)) nil))), [])
unfolding parse from_chars read_int64
nested-run = refl

-- Cut inside the inner array.
cut_run :
    run (b'*' ∷ b'2' ∷ crlf (b':' ∷ b'7' ∷ crlf (b'*' ∷ b'1' ∷ crlf [])))
    ≡ (need_more_data, b'*' ∷ b'2' ∷ crlf (b':' ∷ b'7' ∷ crlf (b'*' ∷ b'1' ∷ crlf [])))
unfolding parse from_chars read_int64
cut_run = refl

-- A length of -7: the bytes needed wrap around to none, and all that follows is the value.
negative_length :
    run (b'$' ∷ b'-' ∷ b'7' ∷ crlf (b'x' ∷ []))
    ≡ (done (bulk_string (b'x' ∷ [])), b'$' ∷ b'-' ∷ b'7' ∷ crlf (b'x' ∷ []))
unfolding parse from_chars read_int64
negative_length = refl

-- A count of -2 is an exception of `reserve`.
negative_count : run (b'*' ∷ b'-' ∷ b'2' ∷ crlf []) ≡ (throws, [])
unfolding parse from_chars read_int64
negative_count = refl

-- What follows the digits of a length is not looked at.
trailing_letters : run (b':' ∷ b'7' ∷ b'z' ∷ crlf []) ≡ (done (integer (pos 7)), [])
unfolding parse from_chars read_int64
trailing_letters = refl

parse-serialize_command_example : parse no_double 1000 9 (serialize_command get_k ++ nested) ≡ (
  done (array (cons (bulk_string (b'G' ∷ b'E' ∷ b'T' ∷ [])) (cons (bulk_string (b'k' ∷ [])) nil))),
  nested,
)
parse-serialize_command_example =
    parse-serialize_command no_double 1000 7 get_k nested (omega arith) (omega arith)
      (omega arith, (omega arith, tt))

parse-Leaves_example : Leaves nested (parse no_double 1000 9 nested)
parse-Leaves_example = parse-Leaves no_double 1000 9 nested

abbrev throwing : Bytes → ParseStatus Bytes × Bytes
throwing buf = (throws, buf)

parse-levels_example : levels no_double 1000 throwing 22 nested ≡ parse no_double 1000 21 nested
parse-levels_example = parse-levels no_double 1000 throwing 21 nested (omega arith)
