-- ===== src/Redis/Resp3/Rollback.antt =====
-- src/data/redis/Resp3.cpp: what `parse` leaves of its buffer.
use aegon.Base.{
  ℕ, zero, suc, ◌+◌, ◌≤◌, ◌≡◌, refl, Option, none, some, [], ◌∷◌, arith, length, drop, length-drop,
  Bool, true, false, Bool-cases, inl, inr, ltb, ◌==◌, if◌then◌else◌,
}
use aegon.Base.Bytes.{Bytes}
use aegon.Base.Decimal.{ℤ, pos, negsuc, from_chars}
use aegon.Redis.Resp3.{
  RespValue, RespArray, ParseStatus, done, need_more_data, parse_error, throws, find_crlf, line,
  parse_bulk, parse_elements, Elements, all, stopped, parse_counted, parse_array, parse_number,
  parse_line, parse, is_prefix, finish, prepend, next, null, integer, array, push, double,
}

-- NeedMoreData and Error.
abbrev pub rolls_back : {Double : Type 0} → ParseStatus Double → Bool
rolls_back (done v) = false
rolls_back need_more_data = true
rolls_back parse_error = true
rolls_back throws = false

-- What is left is at most the buffer, and all of it where the status asks for that.
pub record Leaves {Double : Type 0} (buf : Bytes) (r : ParseStatus Double × Bytes) : Type 0 where
  pub shorter : length r.1 ≤ length buf
  pub whole : rolls_back r.0 ≡ true → r.1 ≡ buf

module _ {Double : Type 0} where
  consumed-Leaves : (v : RespValue Double) (k : ℕ) (buf : Bytes) → Leaves buf (done v, drop k buf)
  consumed-Leaves v k buf = record {
    shorter = omega (arith, length-drop k buf);
    whole = λ e. ground arith;
  }

  throws-Leaves :
      (buf left : Bytes) → length left ≤ length buf → Leaves {Double = Double} buf (throws, left)
  throws-Leaves buf left h = record { shorter = h; whole = λ e. ground arith }

  kept-Leaves : (s : ParseStatus Double) (buf : Bytes) → Leaves buf (s, buf)
  kept-Leaves s buf = record { shorter = omega arith; whole = λ e. refl }

  finish-Leaves :
      (wrap : RespArray Double → RespValue Double) (buf : Bytes) (r : Elements Double × Bytes)
      → length r.1 ≤ length buf
      → Leaves buf (finish wrap buf r)
  finish-Leaves wrap buf (all arr, left) h = record { shorter = h; whole = λ e. ground arith }
  finish-Leaves wrap buf (stopped throws, left) h = throws-Leaves buf left h
  finish-Leaves wrap buf (stopped (done v), left) h = kept-Leaves (done v) buf
  finish-Leaves wrap buf (stopped need_more_data, left) h = kept-Leaves need_more_data buf
  finish-Leaves wrap buf (stopped parse_error, left) h = kept-Leaves parse_error buf

  either :
      (b : Bool) (buf : Bytes) {x y : ParseStatus Double × Bytes}
      → Leaves buf x
      → Leaves buf y
      → Leaves buf (if b then x else y)
  either true buf hx hy = hx
  either false buf hx hy = hy

  parse_bulk-Leaves :
      (n : ℤ) (k : ℕ) (buf : Bytes) → Leaves {Double = Double} buf (parse_bulk n k buf)
  unfolding parse_bulk
  parse_bulk-Leaves (negsuc zero) k buf = consumed-Leaves null (k + 2) buf
  parse_bulk-Leaves (negsuc (suc n)) k buf =
      either (ltb (length buf) _) buf (kept-Leaves need_more_data buf) (consumed-Leaves _ _ buf)
  parse_bulk-Leaves (pos n) k buf =
      either (ltb (length buf) _) buf (kept-Leaves need_more_data buf) (consumed-Leaves _ _ buf)

  prepend-left : (v : RespValue Double) (r : Elements Double × Bytes) → (prepend v r).1 ≡ r.1
  prepend-left v (all arr, left) = refl
  prepend-left v (stopped s, left) = refl

  next-shorter :
      (rest : Bytes → Elements Double × Bytes) (r : ParseStatus Double × Bytes)
      → ((b : Bytes) → length (rest b).1 ≤ length b)
      → length (next rest r).1 ≤ length r.1
  next-shorter rest (done v, b) h = rw (prepend-left v (rest b)) (h b)
  next-shorter rest (need_more_data, b) h = omega arith
  next-shorter rest (parse_error, b) h = omega arith
  next-shorter rest (throws, b) h = omega arith

  module _ (max_size : ℕ) (p : Bytes → ParseStatus Double × Bytes)
      (shrinks : (b : Bytes) → length (p b).1 ≤ length b) where
    length-parse_elements : (n : ℕ) (buf : Bytes) → length (parse_elements p n buf).1 ≤ length buf
    unfolding parse_elements
    length-parse_elements zero buf = omega arith
    length-parse_elements (suc n) buf =
        omega
          (arith, shrinks buf, next-shorter (parse_elements p n) (p buf) (length-parse_elements n))

    parse_counted-Leaves :
        (wrap : RespArray Double → RespValue Double) (n : ℤ) (k : ℕ) (buf : Bytes)
        → Leaves buf (parse_counted max_size p wrap n k buf)
    unfolding parse_counted
    parse_counted-Leaves wrap (negsuc n) k buf =
        throws-Leaves buf _ (omega (arith, length-drop (k + 2) buf))
    parse_counted-Leaves wrap (pos n) k buf = elim (Bool-cases (ltb max_size n)) [
      | inl e ↦ rw e (throws-Leaves buf _ (omega (arith, length-drop (k + 2) buf)))
      | inr e ↦ rw e (
          finish-Leaves wrap buf (parse_elements p n (drop (k + 2) buf))
            (omega (arith, length-drop (k + 2) buf, length-parse_elements n (drop (k + 2) buf))))
    ]

    parse_array-Leaves :
        (wrap : RespArray Double → RespValue Double) (n : ℤ) (k : ℕ) (buf : Bytes)
        → Leaves buf (parse_array max_size p wrap n k buf)
    unfolding parse_array
    parse_array-Leaves wrap (negsuc zero) k buf = consumed-Leaves null (k + 2) buf
    parse_array-Leaves wrap (negsuc (suc n)) k buf =
        parse_counted-Leaves wrap (negsuc (suc n)) k buf
    parse_array-Leaves wrap (pos n) k buf = parse_counted-Leaves wrap (pos n) k buf

    parse_number-Leaves :
        (c : ℕ) (n : ℤ) (k : ℕ) (buf : Bytes) → Leaves buf (parse_number max_size p c n k buf)
    unfolding parse_number
    parse_number-Leaves c n k buf =
        either (c == b':') buf (consumed-Leaves (integer n) (k + 2) buf) (
          either (c == b'$') buf (parse_bulk-Leaves n k buf) (
            either (c == b'%') buf (parse_counted-Leaves array _ k buf)
              (parse_array-Leaves (if c == b'>' then push else array) n k buf)))

    double-Leaves :
        (o : Option Double) (k : ℕ) (buf : Bytes)
        → Leaves {Double = Double} buf
            (elim o [ none ↦ (parse_error, buf) | some d ↦ (done (double d), drop (k + 2) buf) ])
    double-Leaves none k buf = kept-Leaves parse_error buf
    double-Leaves (some d) k buf = consumed-Leaves (double d) (k + 2) buf

    number-Leaves :
        (o : Option ℤ) (c k : ℕ) (buf : Bytes)
        → Leaves {Double = Double} buf
            (elim o [ none ↦ (parse_error, buf) | some n ↦ parse_number max_size p c n k buf ])
    number-Leaves none c k buf = kept-Leaves parse_error buf
    number-Leaves (some n) c k buf = parse_number-Leaves c n k buf

    parse_line-Leaves :
        (stod : Bytes → Option Double) (c k : ℕ) (buf : Bytes)
        → Leaves buf (parse_line max_size p stod c k buf)
    unfolding parse_line
    parse_line-Leaves stod c k buf = either (c == b'+') buf (consumed-Leaves _ (k + 2) buf) (
        either (c == b'-') buf (consumed-Leaves _ (k + 2) buf) (
          either (c == b'_') buf (consumed-Leaves _ (k + 2) buf) (
            either (c == b'#') buf (consumed-Leaves _ (k + 2) buf) (
              either (c == b',') buf (double-Leaves (stod (line buf k)) k buf)
                (number-Leaves (from_chars (line buf k)) c k buf)))))

    found-Leaves :
        (stod : Bytes → Option Double) (o : Option ℕ) (c : ℕ) (buf : Bytes)
        → Leaves {Double = Double} buf
            (elim o [ none ↦ (need_more_data, buf) | some k ↦ parse_line max_size p stod c k buf ])
    found-Leaves stod none c buf = kept-Leaves need_more_data buf
    found-Leaves stod (some k) c buf = parse_line-Leaves stod c k buf

module _ {Double : Type 0} (stod : Bytes → Option Double) (max_size : ℕ) where
  -- Whatever the buffer holds, the parser leaves no more than the buffer, and where it asks for more
  -- data or reports an error it leaves the buffer whole, from inside nested arrays too.
  pub parse-Leaves : (fuel : ℕ) (buf : Bytes) → Leaves buf (parse stod max_size fuel buf)
  unfolding parse
  parse-Leaves zero buf = kept-Leaves need_more_data buf
  parse-Leaves (suc fuel) [] = kept-Leaves need_more_data []
  parse-Leaves (suc fuel) (c ∷ cs) =
      either (is_prefix c) (c ∷ cs)
        (found-Leaves max_size (parse stod max_size fuel) (λ b. (parse-Leaves fuel b).shorter) stod
          (find_crlf (c ∷ cs)) c (c ∷ cs))
        (kept-Leaves parse_error (c ∷ cs))
