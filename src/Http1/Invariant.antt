-- ===== src/Http1/Invariant.antt =====
-- src/http/v1/Http1Parser.h: the invariant of the loop over the header lines.
use aegon.Base.{
  ℕ, zero, suc, ◌+◌, ◌-◌, ◌≤◌, ◌≡◌, refl, sym, ◌∙◌, true, false, some, [], ◌∷◌, ◌==◌, arith, length,
  take, drop, All, All-take, All-drop, Option-cases, Bool-cases, inl, inr,
}
use aegon.Base.Bytes.{Bytes, IsByte}
use aegon.HeaderMap.{size}
use aegon.Simd.{Target}
use aegon.Simd.Find.{find_char, find_crlf}
use aegon.Simd.Check.{validate_header_value, is_value_char}
use aegon.Simd.Lanes.{validate-all_bytes}
use aegon.Simd.Bounds.{find-bound}
use aegon.Http1.Result.{Parsed, ok, Parsed-cases}
use aegon.Http1.Text.{is_empty, validate_tchars, trim_front, trim}
use aegon.Http1.Line.{Limits}
use aegon.Http1.Fields.{Head}
use aegon.Http1.Headers.{header_line, add_field, crlf_at, next_line, header_round, parse_headers}
use aegon.Http1.Clean.{IsClean, IsHead, add_field-IsHead, all_bytes-trim_front, all_bytes-trim_back}

-- A line is accepted where it has a colon and both sides pass their checks.
pub record Accepted (t : Target) (limits : Limits) (line : Bytes) (s s' : Head) : Type 0 where
  pub colon : ℕ
  pub at_colon : find_char t line b':' 0 ≡ some colon
  pub not_first : (colon == 0) ≡ false
  pub tchars : validate_tchars (take colon line) ≡ true
  pub value_checked : validate_header_value t (drop (suc colon) line) ≡ true
  pub stored : add_field limits (take colon line) (trim (drop (suc colon) line)) s ≡ ok s'

module _ (t : Target) (limits : Limits) where
  header_line-Accepted :
      (line : Bytes) (s s' : Head)
      → header_line t limits line s ≡ ok s'
      → Accepted t limits line s s'
  unfolding header_line
  header_line-Accepted line s s' e = elim (Option-cases (find_char t line b':' 0)) [
    | inl none_found ↦ absurd (ground (arith, e, none_found))
    | inr (k, found) ↦ record {
      colon = k;
      at_colon = found;
      not_first = ground (arith, e, found);
      tchars = ground (arith, e, found);
      value_checked = ground (arith, e, found);
      stored = ground (arith, e, found);
    }
  ]

  take_some :
      (n : ℕ) (line : Bytes)
      → (n == 0) ≡ false
      → suc n ≤ length line
      → is_empty (take n line) ≡ false
  take_some zero line e h = ground (arith, e)
  take_some (suc n) [] e h = absurd (omega (arith, h))
  take_some (suc n) (x ∷ line) e h = refl

  Accepted-IsClean :
      (line : Bytes) (s s' : Head) (a : Accepted t limits line s s')
      → All IsByte line
      → IsClean (record { name = take a.colon line; value = trim (drop (suc a.colon) line) })
  Accepted-IsClean line s s' a bytes =
      let raw : Bytes = drop (suc a.colon) line in
      let checked = (validate-all_bytes t raw (All-drop IsByte (suc a.colon) line bytes)).1 in
      let fits = (find-bound b':' [] t line 0 a.colon a.at_colon).1 in
      record {
        some_name = take_some a.colon line a.not_first (omega (arith, fits));
        tchars = a.tchars;
        value_chars =
            all_bytes-trim_back is_value_char (trim_front raw)
              (all_bytes-trim_front is_value_char raw (sym checked ∙ a.value_checked));
      }

  header_line-IsHead :
      (line : Bytes) (s s' : Head)
      → All IsByte line
      → IsHead limits s
      → suc (size s.headers) ≤ limits.max_header_count
      → header_line t limits line s ≡ ok s'
      → IsHead limits s'
  header_line-IsHead line s s' bytes good room e =
      let a = header_line-Accepted line s s' e in
      add_field-IsHead limits (take a.colon line) (trim (drop (suc a.colon) line)) s s' a.stored
        good (Accepted-IsClean line s s' a bytes) room

  module _ (buffer : Bytes) (bytes : All IsByte buffer) (req_line_end : ℕ) where
    abbrev pub IsResult : ℕ × Head → Type 0
    IsResult r = IsHead limits r.1 × (r.0 ≤ length buffer)

    module _ (next : ℕ → Head → Parsed (ℕ × Head))
        (next-IsResult : (cursor : ℕ) (s : Head) (r : ℕ × Head)
          → IsHead limits s
          → next cursor s ≡ ok r
          → IsResult r) where
      -- A line end was looked for, and there was room.
      line-IsResult :
          (cursor : ℕ) (s : Head) (r : ℕ × Head)
          → IsHead limits s
          → suc (size s.headers) ≤ limits.max_header_count
          → next_line next t limits buffer req_line_end cursor s ≡ ok r
          → IsResult r
      line-IsResult cursor s r good room e = elim (Option-cases (find_crlf t buffer cursor)) [
        | inl none_found ↦ absurd (ground (arith, e, none_found))
        | inr (k, found) ↦
            let line : Bytes = take (k - cursor) (drop cursor buffer) in
            let line_bytes =
              All-take IsByte (k - cursor) (drop cursor buffer)
                (All-drop IsByte cursor buffer bytes) in
            elim (Parsed-cases (header_line t limits line s)) [
              | inl (s', ended) ↦
                  next-IsResult (k + 2) s' r
                    (header_line-IsHead line s s' line_bytes good room ended)
                    (ground (arith, e, found, ended))
              | inr (inl (status, ended)) ↦ absurd (ground (arith, e, found, ended))
              | inr (inr ended) ↦ absurd (ground (arith, e, found, ended))
            ]
      ]

      round-IsResult :
          (cursor : ℕ) (s : Head) (r : ℕ × Head)
          → IsHead limits s
          → header_round next t limits buffer req_line_end cursor s ≡ ok r
          → IsResult r
      unfolding crlf_at
      round-IsResult cursor s r good e = elim (Bool-cases (crlf_at buffer cursor)) [
        | inl blank ↦
            let same : r ≡ (cursor + 2, s) = ground (arith, e, blank) in
            rw same (good, ground (arith, blank))
        | inr more ↦ line-IsResult cursor s r good (ground (arith, e)) (ground (arith, e, more))
      ]

    pub parse_headers-IsResult :
        (fuel cursor : ℕ) (s : Head) (r : ℕ × Head)
        → IsHead limits s
        → parse_headers fuel t limits buffer req_line_end cursor s ≡ ok r
        → IsResult r
    unfolding parse_headers
    parse_headers-IsResult zero cursor s r good e = absurd (ground (arith, e))
    parse_headers-IsResult (suc fuel) cursor s r good e =
        round-IsResult (parse_headers fuel t limits buffer req_line_end)
          (parse_headers-IsResult fuel) cursor s r good e
