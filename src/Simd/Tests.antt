-- ===== src/Simd/Tests.antt =====
-- Runs of the vector searches, and an instance of each theorem.
use aegon.Base.{◌≡◌, refl, not, none, some, [], ◌∷◌, ◌++◌, arith, All, drop}
use aegon.Base.Bytes.{Bytes, IsByte}
use aegon.HeaderMap
use aegon.Simd.{avx512, sse42, neon}
use aegon.Simd.Find.{find, find_crlf, shift}
use aegon.Simd.Search.{index_of, find-index_of}
use aegon.Simd.Check.{
  all_bytes, is_uri_char, is_value_char, is_h2_h3_char, is_plain, validate_uri_chars,
  validate_header_value, validate_h2_h3_header_value, has_url_encoding_chars, iequals,
}
use aegon.Simd.Compare.{checks_on_target}

abbrev letters : Bytes
letters =
    b'a' ∷ b'b' ∷ b'c' ∷ b'd' ∷ b'e' ∷ b'f' ∷ b'g' ∷ b'h' ∷ b'i' ∷ b'j' ∷ b'k' ∷ b'l' ∷ b'm' ∷ b'n'
    ∷ b'o' ∷ b'p' ∷ b'q' ∷ []

-- A line end that no register of 16 lanes holds whole.
abbrev line : Bytes
line = letters ++ (13 ∷ 10 ∷ [])

line_sse42 : find_crlf sse42 line 0 ≡ some 17
unfolding find
line_sse42 = refl

line_avx512 : find_crlf avx512 line 3 ≡ some 17
unfolding find
line_avx512 = refl

no_line : find_crlf neon letters 0 ≡ none
unfolding find
no_line = refl

letters-IsByte : All IsByte letters
letters-IsByte = ground arith

find-index_of_example :
    find sse42 (13 ∷ 10 ∷ []) line 2 ≡ shift 2 (index_of (13 ∷ 10 ∷ []) 0 (drop 2 line))
find-index_of_example = find-index_of 13 (10 ∷ []) sse42 line 2

checks_on_target_example :
    ((validate_uri_chars neon letters ≡ all_bytes is_uri_char letters)
      × (validate_header_value neon letters ≡ all_bytes is_value_char letters)
      × (validate_h2_h3_header_value neon letters ≡ all_bytes is_h2_h3_char letters)
      × (has_url_encoding_chars neon letters ≡ not (all_bytes is_plain letters)))
    × (iequals neon letters letters ≡ HeaderMap.iequals letters letters)
checks_on_target_example = checks_on_target neon letters letters letters-IsByte letters-IsByte
