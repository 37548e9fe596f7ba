-- ===== src/Http1/Targets.antt =====
-- The targets that src/http/v1/Http1Parser.h accepts.
use aegon.Base.{
  ℕ, suc, ◌+◌, ◌-◌, ◌≡◌, refl, sym, ◌∙◌, Bool, true, not, ◌&&◌, [], ◌∷◌, ◌==◌, ◌⊎◌, arith, take,
  drop, All, All-take, All-drop, Option-cases, Bool-cases, inl, inr,
}
use aegon.Base.Bytes.{Bytes, IsByte, bytes_eq}
use aegon.Simd.{Target}
use aegon.Simd.Find.{find_char, starts_with}
use aegon.Simd.Check.{all_bytes, is_uri_char, validate_uri_chars}
use aegon.Simd.Lanes.{validate-all_bytes}
use aegon.Simd.Pieces.{all_bytes-take, all_bytes-drop}
use aegon.Http1.Result.{ok, ok_injective, bind-ok, require_some-ok, require-ok}
use aegon.Http1.Text.{Method, is_unknown, string_to_method, is_valid_request_target, target_chars}
use aegon.Http1.Line.{
  starts_with_slash, Limits, RequestLine, parse_line, parse_target, parse_version, origin_form,
  after_authority, split_query,
}

-- Printable, without a space and without the start of a fragment.
abbrev pub is_target_char : ℕ → Bool
is_target_char c = is_uri_char c && not (c == b'#')

target-is_target_char :
    (cs : Bytes)
    → target_chars cs ≡ true
    → all_bytes is_uri_char cs ≡ true
    → all_bytes is_target_char cs ≡ true
unfolding target_chars all_bytes
target-is_target_char [] h k = refl
target-is_target_char (c ∷ cs) h k = ground (arith, h, k, target-is_target_char cs)

valid-target_chars : (cs : Bytes) → is_valid_request_target cs ≡ true → target_chars cs ≡ true
unfolding is_valid_request_target
valid-target_chars cs h = ground (arith, h)

abbrev http_scheme : Bytes
http_scheme = b'h' ∷ b't' ∷ b't' ∷ b'p' ∷ b':' ∷ b'/' ∷ b'/' ∷ []

module _ (t : Target) (limits : Limits) where
  after_authority-IsByte : (cs : Bytes) → All IsByte cs → All IsByte (after_authority t cs)
  unfolding after_authority
  after_authority-IsByte cs h = elim (Option-cases (find_char t cs b'/' 0)) [
    | inl e ↦
        let same : after_authority t cs ≡ b'/' ∷ [] = ground (arith, e) in rw same (omega arith, tt)
    | inr (k, e) ↦
        let same : after_authority t cs ≡ drop k cs = ground (arith, e) in
        rw same (All-drop IsByte k cs h)
  ]

  origin_form-cases :
      (m : Method) (cs origin : Bytes)
      → origin_form t m cs ≡ ok origin
      → (origin ≡ cs)
        ⊎ (origin ≡ after_authority t (drop 7 cs))
        ⊎ (origin ≡ after_authority t (drop 8 cs))
  unfolding origin_form
  origin_form-cases m cs origin e = elim (Bool-cases (starts_with_slash cs)) [
    | inl slash ↦ inl (ground (arith, e, slash))
    | inr no_slash ↦ elim (Bool-cases (bytes_eq cs (b'*' ∷ []))) [
      | inl star ↦ inl (ground (arith, e, no_slash, star))
      | inr no_star ↦ elim (Bool-cases (starts_with http_scheme cs)) [
        | inl http ↦ inr (inl (ground (arith, e, no_slash, no_star, http)))
        | inr no_http ↦ inr (inr (ground (arith, e, no_slash, no_star, no_http)))
      ]
    ]
  ]

  -- The target is a piece of the text, or "/".
  origin_form-IsByte :
      (m : Method) (cs origin : Bytes)
      → All IsByte cs
      → origin_form t m cs ≡ ok origin
      → All IsByte origin
  origin_form-IsByte m cs origin h e = elim (origin_form-cases m cs origin e) [
    | inl same ↦ rw same h
    | inr (inl same) ↦ rw same (after_authority-IsByte (drop 7 cs) (All-drop IsByte 7 cs h))
    | inr (inr same) ↦ rw same (after_authority-IsByte (drop 8 cs) (All-drop IsByte 8 cs h))
  ]

  split_query-is_target_char :
      (cs : Bytes)
      → all_bytes is_target_char cs ≡ true
      → (all_bytes is_target_char (split_query t cs).0 ≡ true)
        × (all_bytes is_target_char (split_query t cs).1 ≡ true)
  unfolding split_query
  split_query-is_target_char cs h = elim (Option-cases (find_char t cs b'?' 0)) [
    | inl e ↦
        let same : split_query t cs ≡ (cs, []) = ground (arith, e) in
        rw same (h, unfold all_bytes in refl)
    | inr (k, e) ↦
        let same : split_query t cs ≡ (take k cs, drop (suc k) cs) = ground (arith, e) in
        rw same (all_bytes-take is_target_char k cs h, all_bytes-drop is_target_char (suc k) cs h)
  ]

  abbrev pub IsTarget : Bytes × Bytes → Type 0
  IsTarget r = (all_bytes is_target_char r.0 ≡ true) × (all_bytes is_target_char r.1 ≡ true)

  -- The checks that the target passed.
  parse_target-checks :
      (m : Method) (cs : Bytes) (r : Bytes × Bytes)
      → parse_target t limits m cs ≡ ok r
      → (origin : Bytes) × (origin_form t m cs ≡ ok origin)
        × (is_valid_request_target origin ≡ true)
        × (validate_uri_chars t origin ≡ true)
        × (r ≡ split_query t origin)
  unfolding parse_target
  parse_target-checks m cs r e =
      let (short, e1) = require-ok _ _ _ r e in
      let (origin, ended, e2) = bind-ok (origin_form t m cs) _ r e1 in
      let (valid, e3) = require-ok (is_valid_request_target origin) _ _ r e2 in
      let (chars, e4) = require-ok (validate_uri_chars t origin) _ _ r e3 in
      (origin, ended, valid, chars, ok_injective (split_query t origin) r e4)

  parse_target-IsTarget :
      (m : Method) (cs : Bytes) (r : Bytes × Bytes)
      → All IsByte cs
      → parse_target t limits m cs ≡ ok r
      → IsTarget r
  parse_target-IsTarget m cs r h e =
      let (origin, ended, valid, chars, same) = parse_target-checks m cs r e in
      let checked = (validate-all_bytes t origin (origin_form-IsByte m cs origin h ended)).0 in
      rw same (
        split_query-is_target_char origin
          (target-is_target_char origin (valid-target_chars origin valid) (sym checked ∙ chars)))

  pub parse_line-IsTarget :
      (cs : Bytes) (line : RequestLine)
      → All IsByte cs
      → parse_line t limits cs ≡ ok line
      → IsTarget (line.path, line.query)
  unfolding parse_line
  parse_line-IsTarget cs line h e =
      let (sp1, first, e1) = require_some-ok (find_char t cs 32 0) _ _ line e in
      let m = string_to_method (take sp1 cs) in
      let (known, e2) = require-ok (not (is_unknown m)) _ _ line e1 in
      let (sp2, second, e3) = require_some-ok (find_char t cs 32 (sp1 + 1)) _ _ line e2 in
      let text = take (sp2 - (sp1 + 1)) (drop (sp1 + 1) cs) in
      let (target, ended, e4) = bind-ok (parse_target t limits m text) _ line e3 in
      let (v, version, e5) = bind-ok (parse_version (drop (sp2 + 1) cs)) _ line e4 in
      let same : line ≡ record { method = m; path = target.0; query = target.1; version = v } =
        ok_injective _ line e5 in
      rw same (
        parse_target-IsTarget m text target
          (All-take IsByte (sp2 - (sp1 + 1)) (drop (sp1 + 1) cs) (All-drop IsByte (sp1 + 1) cs h))
          ended)
