-- ===== src/Redis/Resp3/Depth.antt =====
-- src/data/redis/Resp3.cpp: the recursion of `parse` into the elements of an array.
use aegon.Base.{
  ℕ, zero, suc, ◌+◌, ◌≤◌, ◌≡◌, refl, sym, ap, Option, none, some, [], ◌∷◌, arith, length, drop,
  length-drop, Bool, ◌∙◌, ltb, if◌then◌else◌, ◌==◌,
}
use aegon.Base.Bytes.{Bytes}
use aegon.Base.Decimal.{ℤ, pos, negsuc, from_chars}
use aegon.Redis.Resp3.{
  RespValue, RespArray, ParseStatus, done, need_more_data, parse_error, throws, find_crlf, line,
  parse_elements, Elements, parse_counted, parse_array, parse_number, parse_line, parse,
  parse_level, is_prefix, finish, next, prepend, array, push,
}
use aegon.Redis.Resp3.Rollback.{parse-Leaves}

module _ {Double : Type 0} (max_size m : ℕ) (p q : Bytes → ParseStatus Double × Bytes)
    (shrinks : (b : Bytes) → length (p b).1 ≤ length b)
    (agree : (b : Bytes) → length b ≤ m → p b ≡ q b) where
  next_same :
      (f g : Bytes → Elements Double × Bytes) (r : ParseStatus Double × Bytes)
      → f r.1 ≡ g r.1
      → next f r ≡ next g r
  next_same f g (done v, b) e = ap (prepend v) e
  next_same f g (need_more_data, b) e = refl
  next_same f g (parse_error, b) e = refl
  next_same f g (throws, b) e = refl

  elements_same :
      (n : ℕ) (buf : Bytes) → length buf ≤ m → parse_elements p n buf ≡ parse_elements q n buf
  unfolding parse_elements
  elements_same zero buf h = refl
  elements_same (suc n) buf h =
      next_same (parse_elements p n) (parse_elements q n) (p buf)
        (elements_same n (p buf).1 (omega (arith, shrinks buf)))
      ∙ ap (next (parse_elements q n)) (agree buf h)

  counted_same :
      (wrap : RespArray Double → RespValue Double) (n : ℤ) (k : ℕ) (buf : Bytes)
      → length (drop (k + 2) buf) ≤ m
      → parse_counted max_size p wrap n k buf ≡ parse_counted max_size q wrap n k buf
  unfolding parse_counted
  counted_same wrap (negsuc n) k buf h = refl
  counted_same wrap (pos n) k buf h =
      ap (λ r. if ltb max_size n then (throws, drop (k + 2) buf) else finish wrap buf r)
        (elements_same n (drop (k + 2) buf) h)

  array_same :
      (wrap : RespArray Double → RespValue Double) (n : ℤ) (k : ℕ) (buf : Bytes)
      → length (drop (k + 2) buf) ≤ m
      → parse_array max_size p wrap n k buf ≡ parse_array max_size q wrap n k buf
  unfolding parse_array
  array_same wrap (negsuc zero) k buf h = refl
  array_same wrap (negsuc (suc n)) k buf h = counted_same wrap (negsuc (suc n)) k buf h
  array_same wrap (pos n) k buf h = counted_same wrap (pos n) k buf h

  otherwise :
      (b : Bool) (x : ParseStatus Double × Bytes) {y z : ParseStatus Double × Bytes}
      → y ≡ z
      → (if b then x else y) ≡ (if b then x else z)
  otherwise b x e = ap (λ r. if b then x else r) e

  number_same :
      (c : ℕ) (n : ℤ) (k : ℕ) (buf : Bytes)
      → length (drop (k + 2) buf) ≤ m
      → parse_number max_size p c n k buf ≡ parse_number max_size q c n k buf
  unfolding parse_number
  number_same c n k buf h = otherwise (c == b':') _ (
      otherwise (c == b'$') _ (
        rw (counted_same array _ k buf h, array_same (if c == b'>' then push else array) n k buf h)
          refl))

  from_chars_same :
      (o : Option ℤ) (c k : ℕ) (buf : Bytes)
      → length (drop (k + 2) buf) ≤ m
      → ◌≡◌ {A = ParseStatus Double × Bytes}
          (elim o [ none ↦ (parse_error, buf) | some n ↦ parse_number max_size p c n k buf ])
          (elim o [ none ↦ (parse_error, buf) | some n ↦ parse_number max_size q c n k buf ])
  from_chars_same none c k buf h = refl
  from_chars_same (some n) c k buf h = number_same c n k buf h

  line_same :
      (stod : Bytes → Option Double) (c k : ℕ) (buf : Bytes)
      → length (drop (k + 2) buf) ≤ m
      → parse_line max_size p stod c k buf ≡ parse_line max_size q stod c k buf
  unfolding parse_line
  line_same stod c k buf h = otherwise (c == b'+') _ (
      otherwise (c == b'-') _ (
        otherwise (c == b'_') _ (
          otherwise (c == b'#') _
            (otherwise (c == b',') _ (from_chars_same (from_chars (line buf k)) c k buf h)))))

  -- The buffer is one byte longer than what an element is read from.
  crlf_same :
      (stod : Bytes → Option Double) (o : Option ℕ) (c : ℕ) (buf : Bytes)
      → length buf ≤ suc m
      → ◌≡◌ {A = ParseStatus Double × Bytes}
          (elim o [ none ↦ (need_more_data, buf) | some k ↦ parse_line max_size p stod c k buf ])
          (elim o [ none ↦ (need_more_data, buf) | some k ↦ parse_line max_size q stod c k buf ])
  crlf_same stod none c buf h = refl
  crlf_same stod (some k) c buf h = line_same stod c k buf (omega (arith, length-drop (k + 2) buf))

module _ {Double : Type 0} (stod : Bytes → Option Double) (max_size : ℕ) where
  -- `n` levels of calls, and then `below` in place of the calls inside them.
  unfoldable pub levels :
      (Bytes → ParseStatus Double × Bytes) → ℕ → Bytes → ParseStatus Double × Bytes
  unfolding is_prefix find_crlf parse_line
  levels below zero buf = below buf
  levels below (suc n) buf = parse_level stod max_size (levels below n) buf

  -- The calls nest at most one level deeper than the buffer has bytes: with `n` at least its length,
  -- whatever stands in place of the calls inside the first n + 1 levels, the status, the value and the
  -- rest of the buffer are those of `parse` with fuel `n`.
  pub parse-levels :
      (below : Bytes → ParseStatus Double × Bytes) (n : ℕ) (buf : Bytes)
      → length buf ≤ n
      → levels below (suc n) buf ≡ parse stod max_size n buf
  unfolding levels parse
  parse-levels below zero [] h = refl
  parse-levels below (suc n) [] h = refl
  parse-levels below zero (c ∷ cs) h = absurd (omega arith)
  parse-levels below (suc n) (c ∷ cs) h = sym (
      ap (λ r. if is_prefix c then r else (parse_error, c ∷ cs))
        (crlf_same max_size (length cs) (parse stod max_size n) (levels below (suc n))
          (λ b. (parse-Leaves stod max_size n b).shorter)
          (λ b le. sym (parse-levels below n b (omega arith))) stod (find_crlf (c ∷ cs)) c (c ∷ cs)
          (omega arith)))
