-- ===== src/Redis/Resp3/RoundTrip.antt =====
-- src/data/redis/Resp3.cpp: the command serializer and then the parser.
use aegon.Base.{
  ℕ, suc, ◌+◌, ◌-◌, ◌≤◌, ◌<◌, ◌^◌, ◌≡◌, refl, ap, Option, some, List, [], ◌∷◌, ◌++◌, arith, length,
  take, drop, All, length-append, ◌∙◌, ltb, le→ltb, ◌%◌, false,
}
use aegon.Base.Bytes.{Bytes}
use aegon.Base.Decimal.{
  pos, from_chars, to_string, to_string_int, from_chars-to_string_int, to_string-IsDigit,
}
use aegon.Redis.Resp3.{
  RespValue, RespArray, bulk_string, array, nil, cons, ParseStatus, done, find_crlf, line,
  parse_bulk, parse_elements, all, parse_counted, parse_array, parse_number, parse_line, parse,
  crlf, is_prefix, serialize_args, serialize_command, prepend, next,
}

append-crlf : (xs ys rest : Bytes) → (xs ++ crlf ys) ++ rest ≡ xs ++ crlf (ys ++ rest)
append-crlf [] ys rest = refl
append-crlf (x ∷ xs) ys rest = ap (λ t. x ∷ t) (append-crlf xs ys rest)

take_front : (xs rest : Bytes) → take (length xs) (xs ++ rest) ≡ xs
take_front [] rest = refl
take_front (x ∷ xs) rest = ap (λ t. x ∷ t) (take_front xs rest)

drop_front : (xs rest : Bytes) → drop (length xs) (xs ++ rest) ≡ rest
drop_front [] rest = refl
drop_front (x ∷ xs) rest = drop_front xs rest

drop_line : (xs rest : Bytes) → drop (length xs + 2) (xs ++ crlf rest) ≡ rest
drop_line [] rest = refl
drop_line (x ∷ xs) rest =
    let e : suc (length xs) + 2 ≡ suc (length xs + 2) = omega arith in rw e (drop_line xs rest)

drop_bulk :
    (head arg rest : Bytes)
    → drop (length head + 2 + length arg + 2) (head ++ crlf (arg ++ crlf rest)) ≡ rest
drop_bulk [] arg rest =
    let e : 2 + length arg + 2 ≡ suc (suc (length arg + 2)) = omega arith in
    rw e (drop_line arg rest)
drop_bulk (x ∷ head) arg rest =
    let e : suc (length head) + 2 + length arg + 2 ≡ suc (length head + 2 + length arg + 2) =
      omega arith in
    rw e (drop_bulk head arg rest)

-- The end of a line whose bytes are all printable.
find_crlf_line :
    (x : ℕ) (xs rest : Bytes)
    → 14 ≤ x
    → All (λ c. 48 ≤ c) xs
    → find_crlf ((x ∷ xs) ++ crlf rest) ≡ some (length (x ∷ xs))
unfolding find_crlf
find_crlf_line x [] rest hx h = ground arith
find_crlf_line x (y ∷ ys) rest hx (hy, h) = ground (arith, find_crlf_line y ys rest (omega arith) h)

line_front :
    (prefix : ℕ) (xs rest : Bytes) → line ((prefix ∷ xs) ++ crlf rest) (length (prefix ∷ xs)) ≡ xs
line_front prefix xs rest =
    let e : suc (length xs) - 1 ≡ length xs = omega arith in rw e (take_front xs (crlf rest))

number_read :
    (n prefix : ℕ) (rest : Bytes)
    → n < 2 ^ 63
    → from_chars (line ((prefix ∷ to_string n) ++ crlf rest) (length (prefix ∷ to_string n)))
      ≡ some (pos n)
unfolding to_string_int
number_read n prefix rest h =
    ap from_chars (line_front prefix (to_string n) rest) ∙ from_chars-to_string_int (pos n) h

module _ {Double : Type 0} (stod : Bytes → Option Double) (max_size : ℕ) where
  abbrev reader : ℕ → Bytes → ParseStatus Double × Bytes
  reader fuel = parse stod max_size fuel

  bulk_line :
      (fuel n : ℕ) (rest : Bytes)
      → n < 2 ^ 63
      → parse stod max_size (suc fuel) ((b'$' ∷ to_string n) ++ crlf rest)
        ≡ parse_bulk (pos n) (length (b'$' ∷ to_string n)) ((b'$' ∷ to_string n) ++ crlf rest)
  unfolding parse is_prefix parse_line parse_number
  bulk_line fuel n rest h =
      rw
        (
          find_crlf_line b'$' (to_string n) rest (omega arith) (to_string-IsDigit n).0,
          number_read n b'$' rest h,
        )
        refl

  array_line :
      (fuel n : ℕ) (rest : Bytes)
      → n < 2 ^ 63
      → parse stod max_size (suc fuel) ((b'*' ∷ to_string n) ++ crlf rest)
        ≡ parse_counted max_size
            (reader fuel)
            array
            (pos n)
            (length (b'*' ∷ to_string n))
            ((b'*' ∷ to_string n) ++ crlf rest)
  unfolding parse is_prefix parse_line parse_number parse_array
  array_line fuel n rest h =
      rw
        (
          find_crlf_line b'*' (to_string n) rest (omega arith) (to_string-IsDigit n).0,
          number_read n b'*' rest h,
        )
        refl

  bulk_data :
      (head arg rest : Bytes)
      → length head ≤ 21
      → length arg < 2 ^ 63
      → parse_bulk {Double = Double}
          (pos (length arg))
          (length head)
          (head ++ crlf (arg ++ crlf rest))
        ≡ (done (bulk_string arg), rest)
  unfolding parse_bulk
  bulk_data head arg rest hh h =
      let total : (length head + 2 + length arg + 2) % 2 ^ 64 ≡ length head + 2 + length arg + 2 =
        omega arith in
      let whole : length (head ++ crlf (arg ++ crlf rest))
          ≡ length head + 2 + length arg + 2 + length rest =
        omega
          (arith, length-append head (crlf (arg ++ crlf rest)), length-append arg (crlf rest)) in
      let fits : ltb (length (head ++ crlf (arg ++ crlf rest))) (length head + 2 + length arg + 2)
          ≡ false =
        le→ltb _ _ (omega (arith, whole)) in
      rw
        (
          total,
          fits,
          drop_line head (arg ++ crlf rest),
          take_front arg (crlf rest),
          drop_bulk head arg rest,
        )
        refl

  -- One bulk string.
  bulk_back :
      (fuel : ℕ) (arg rest : Bytes)
      → length arg < 2 ^ 63
      → parse stod max_size (suc fuel) ((b'$' ∷ to_string (length arg)) ++ crlf (arg ++ crlf rest))
        ≡ (done (bulk_string arg), rest)
  bulk_back fuel arg rest h =
      bulk_line fuel (length arg) (arg ++ crlf rest) h
      ∙ bulk_data (b'$' ∷ to_string (length arg)) arg rest
          (omega (arith, (to_string-IsDigit (length arg)).1)) h

  abbrev bulk_strings : List Bytes → RespArray Double
  bulk_strings [] = nil
  bulk_strings (arg ∷ args) = cons (bulk_string arg) (bulk_strings args)

  parse_elements-done :
      (p : Bytes → ParseStatus Double × Bytes) (n : ℕ) (buf buf' : Bytes) (v : RespValue Double)
      → p buf ≡ (done v, buf')
      → parse_elements p (suc n) buf ≡ prepend v (parse_elements p n buf')
  unfolding parse_elements
  parse_elements-done p n buf buf' v e = ap (next (parse_elements p n)) e

  elements_back :
      (fuel : ℕ) (args : List Bytes) (rest : Bytes)
      → All (λ arg. length arg < 2 ^ 63) args
      → parse_elements (reader (suc fuel)) (length args) (serialize_args args ++ rest)
        ≡ (all (bulk_strings args), rest)
  unfolding parse_elements serialize_args
  elements_back fuel [] rest h = refl
  elements_back fuel (arg ∷ args) rest (ha, h) =
      let head : Bytes = b'$' ∷ to_string (length arg) in
      let e : (head ++ crlf (arg ++ crlf (serialize_args args))) ++ rest
          ≡ head ++ crlf (arg ++ crlf (serialize_args args ++ rest)) =
        append-crlf head (arg ++ crlf (serialize_args args)) rest
        ∙ ap (λ t. head ++ crlf t) (append-crlf arg (serialize_args args) rest) in
      ap (parse_elements (reader (suc fuel)) (suc (length args))) e
      ∙ parse_elements-done (reader (suc fuel)) (length args)
          (head ++ crlf (arg ++ crlf (serialize_args args ++ rest))) (serialize_args args ++ rest)
          (bulk_string arg) (bulk_back fuel arg (serialize_args args ++ rest) ha)
      ∙ ap (prepend (bulk_string arg)) (elements_back fuel args rest h)

  -- Whatever follows it and whatever `std::stod` does, a serialized command of fewer than 2^63
  -- arguments, none of them longer than 2^63 - 1 bytes and no more than a vector can hold, is read
  -- back as the array of its arguments as bulk strings, and exactly its bytes are consumed.
  pub parse-serialize_command :
      (fuel : ℕ) (args : List Bytes) (rest : Bytes)
      → length args < 2 ^ 63
      → length args ≤ max_size
      → All (λ arg. length arg < 2 ^ 63) args
      → parse stod max_size (suc (suc fuel)) (serialize_command args ++ rest)
        ≡ (done (array (bulk_strings args)), rest)
  unfolding serialize_command parse_counted
  parse-serialize_command fuel args rest hn hm h =
      let head : Bytes = b'*' ∷ to_string (length args) in
      let body = serialize_args args ++ rest in
      rw
        (
          append-crlf head (serialize_args args) rest,
          array_line (suc fuel) (length args) body hn,
          le→ltb max_size (length args) hm,
          drop_line head body,
          elements_back fuel args rest h,
        )
        refl
