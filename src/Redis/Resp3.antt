-- ===== src/Redis/Resp3.antt =====
-- src/data/redis/Resp3.h and Resp3.cpp: the RESP3 parser and the command serializer.
-- `std::stod` and the largest vector that can be reserved are parameters, the latter `max_size`.
-- An exception that leaves the parser is the result `throws`.
pub mod RoundTrip
pub mod Rollback
pub mod Depth
mod Tests
use aegon.Base.{
  ℕ, zero, suc, ◌+◌, ◌-◌, ◌*◌, ◌%◌, ◌^◌, Bool, true, false, not, ◌&&◌, ◌||◌, Option, none, some,
  List, [], ◌∷◌, ◌++◌, ltb, leb, ◌==◌, if◌then◌else◌, length, take, drop, get_or,
}
use aegon.Base.Bytes.{Bytes}
use aegon.Base.Decimal.{ℤ, pos, negsuc, from_chars, to_string}

-- A value with its RespType; a string keeps the type that the parser gave it.
mutual
  pub data RespValue (Double : Type 0) : Type 0 where
    null : RespValue Double
    simple_string : Bytes → RespValue Double
    error_string : Bytes → RespValue Double
    integer : ℤ → RespValue Double
    bulk_string : Bytes → RespValue Double
    array : RespArray Double → RespValue Double
    boolean : Bool → RespValue Double
    double : Double → RespValue Double
    push : RespArray Double → RespValue Double

  pub data RespArray (Double : Type 0) : Type 0 where
    nil : RespArray Double
    cons : RespValue Double → RespArray Double → RespArray Double

pub data ParseStatus (Double : Type 0) : Type 0 where
  done : RespValue Double → ParseStatus Double
  need_more_data parse_error throws : ParseStatus Double

-- sv.find("\r\n")
unfoldable pub find_crlf : Bytes → Option ℕ
find_crlf [] = none
find_crlf (a ∷ []) = none
find_crlf (a ∷ b ∷ cs) =
    let rest = find_crlf (b ∷ cs) in
    if a == 13 && b == 10 then some 0 else elim rest [ none ↦ none | some p ↦ some (suc p) ]

-- static_cast<size_t>(len)
abbrev pub as_size : ℤ → ℕ
as_size (pos n) = n
as_size (negsuc n) = 2 ^ 64 - (n + 1)

-- in.substr(1, crlf_pos - 1)
abbrev pub line : Bytes → ℕ → Bytes
line buf crlf_pos = take (crlf_pos - 1) (drop 1 buf)

-- The case of '$' after its number was read.
unfoldable pub parse_bulk : {Double : Type 0} → ℤ → ℕ → Bytes → ParseStatus Double × Bytes
parse_bulk (negsuc zero) crlf_pos buf = (done null, drop (crlf_pos + 2) buf)
parse_bulk len crlf_pos buf =
    let total_needed = (crlf_pos + 2 + as_size len + 2) % 2 ^ 64 in
    if ltb (length buf) total_needed
    then (need_more_data, buf)
    else (done (bulk_string (take (as_size len) (drop (crlf_pos + 2) buf))), drop total_needed buf)

pub data Elements (Double : Type 0) : Type 0 where
  all : RespArray Double → Elements Double
  stopped : ParseStatus Double → Elements Double

-- arr.push_back, for an element in front of those that follow it.
abbrev pub prepend :
    {Double : Type 0} → RespValue Double → Elements Double × Bytes → Elements Double × Bytes
prepend v (all arr, buf) = (all (cons v arr), buf)
prepend v (stopped s, buf) = (stopped s, buf)

-- One round of the loop: the element that was read, then the `rest` of the rounds.
abbrev pub next :
    {Double : Type 0}
    → (Bytes → Elements Double × Bytes)
    → ParseStatus Double × Bytes
    → Elements Double × Bytes
next rest (done v, buf) = prepend v (rest buf)
next rest (need_more_data, buf) = (stopped need_more_data, buf)
next rest (parse_error, buf) = (stopped parse_error, buf)
next rest (throws, buf) = (stopped throws, buf)

-- The loop that reads `n` elements, each by the call `p`.
unfoldable pub parse_elements :
    {Double : Type 0} → (Bytes → ParseStatus Double × Bytes) → ℕ → Bytes → Elements Double × Bytes
parse_elements p zero buf = (all nil, buf)
parse_elements p (suc n) buf = next (parse_elements p n) (p buf)

-- in = saved_in, but not for an exception.
abbrev pub finish :
    {Double : Type 0}
    → (RespArray Double → RespValue Double)
    → Bytes
    → Elements Double × Bytes
    → ParseStatus Double × Bytes
finish wrap saved_in (all arr, buf) = (done (wrap arr), buf)
finish wrap saved_in (stopped throws, buf) = (throws, buf)
finish wrap saved_in (stopped s, buf) = (s, saved_in)

module _ {Double : Type 0} (max_size : ℕ) (p : Bytes → ParseStatus Double × Bytes) where
  -- `reserve` and the loop, for `count` elements. Where the source doubles the count of a map past
  -- the largest int64_t, which is undefined, this one throws, as `reserve` does on any such number.
  unfoldable pub parse_counted :
      (RespArray Double → RespValue Double) → ℤ → ℕ → Bytes → ParseStatus Double × Bytes
  unfolding parse_elements
  parse_counted wrap (negsuc n) crlf_pos buf = (throws, drop (crlf_pos + 2) buf)
  parse_counted wrap (pos n) crlf_pos buf =
      if ltb max_size n
      then (throws, drop (crlf_pos + 2) buf)
      else finish wrap buf (parse_elements p n (drop (crlf_pos + 2) buf))

  -- The case of '*', '>' and '~' after its number was read.
  unfoldable pub parse_array :
      (RespArray Double → RespValue Double) → ℤ → ℕ → Bytes → ParseStatus Double × Bytes
  unfolding parse_counted
  parse_array wrap (negsuc zero) crlf_pos buf = (done null, drop (crlf_pos + 2) buf)
  parse_array wrap count crlf_pos buf = parse_counted wrap count crlf_pos buf

  abbrev twice : ℤ → ℤ
  twice (pos n) = pos (n * 2)
  twice (negsuc n) = negsuc (n * 2 + 1)

  -- A number behind the prefix: ':', '$', '*', '>', '~' and '%'.
  unfoldable pub parse_number : ℕ → ℤ → ℕ → Bytes → ParseStatus Double × Bytes
  unfolding parse_bulk parse_array parse_counted
  parse_number prefix n crlf_pos buf =
      if prefix == b':'
      then (done (integer n), drop (crlf_pos + 2) buf)
      else if prefix == b'$'
      then parse_bulk n crlf_pos buf
      else if prefix == b'%'
      then parse_counted array (twice n) crlf_pos buf
      else parse_array (if prefix == b'>' then push else array) n crlf_pos buf

  -- The cases of the switch, from where each has found the end of the line.
  unfoldable pub parse_line : (Bytes → Option Double) → ℕ → ℕ → Bytes → ParseStatus Double × Bytes
  unfolding parse_number
  parse_line stod prefix crlf_pos buf =
      if prefix == b'+'
      then (done (simple_string (line buf crlf_pos)), drop (crlf_pos + 2) buf)
      else if prefix == b'-'
      then (done (error_string (line buf crlf_pos)), drop (crlf_pos + 2) buf)
      else if prefix == b'_'
      then (done null, drop (crlf_pos + 2) buf)
      else if prefix == b'#'
      then (done (boolean (get_or buf 1 0 == b't')), drop (crlf_pos + 2) buf)
      else if prefix == b','
      then elim (stod (line buf crlf_pos)) [
        | none ↦ (parse_error, buf)
        | some d ↦ (done (double d), drop (crlf_pos + 2) buf)
      ]
      else elim (from_chars (line buf crlf_pos)) [
        | none ↦ (parse_error, buf)
        | some n ↦ parse_number prefix n crlf_pos buf
      ]

unfoldable pub is_prefix : ℕ → Bool
is_prefix c =
    c == b'+'
    || (c == b'-'
        || (c == b':'
            || (c == b'_'
                || (c == b'#'
                    || (c == b','
                        || (c == b'$'
                            || (c == b'*' || (c == b'>' || (c == b'~' || c == b'%')))))))))

-- The result and what is left of the buffer, where `p` reads an element of an array.
abbrev pub parse_level :
    {Double : Type 0}
    → (Bytes → Option Double)
    → ℕ
    → (Bytes → ParseStatus Double × Bytes)
    → Bytes
    → ParseStatus Double × Bytes
parse_level stod max_size p [] = (need_more_data, [])
parse_level stod max_size p (prefix ∷ cs) =
    if is_prefix prefix
    then elim (find_crlf (prefix ∷ cs)) [
      | none ↦ (need_more_data, prefix ∷ cs)
      | some crlf_pos ↦ parse_line max_size p stod prefix crlf_pos (prefix ∷ cs)
    ]
    else (parse_error, prefix ∷ cs)

-- The fuel bounds how deep arrays nest.
unfoldable pub parse :
    {Double : Type 0} → (Bytes → Option Double) → ℕ → ℕ → Bytes → ParseStatus Double × Bytes
unfolding is_prefix find_crlf parse_line
parse stod max_size zero buf = (need_more_data, buf)
parse stod max_size (suc fuel) buf = parse_level stod max_size (parse stod max_size fuel) buf

abbrev pub crlf : Bytes → Bytes
crlf rest = 13 ∷ 10 ∷ rest

-- res.append of each argument
unfoldable pub serialize_args : List Bytes → Bytes
serialize_args [] = []
serialize_args (arg ∷ args) =
    (b'$' ∷ to_string (length arg)) ++ crlf (arg ++ crlf (serialize_args args))

unfoldable pub serialize_command : List Bytes → Bytes
unfolding serialize_args
serialize_command args = (b'*' ∷ to_string (length args)) ++ crlf (serialize_args args)
