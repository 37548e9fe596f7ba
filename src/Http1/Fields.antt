-- ===== src/Http1/Fields.antt =====
-- src/http/v1/Http1Parser.h: what the parser keeps of the headers it has read, and the switch on a
-- header's name that updates it.
use aegon.Base.{
  ℕ, zero, suc, Bool, true, false, not, ◌||◌, Option, none, some, List, [], ◌∷◌, leb, ◌==◌,
  if◌then◌else◌, length, take, drop, map,
}
use aegon.Base.Bytes.{Bytes}
use aegon.HeaderMap.{
  HeaderMap, empty_map, iequals, is_named, to_lower, content_length_name, transfer_encoding_name,
}
use aegon.Simd.Find.{starts_with}
use aegon.Simd.Search.{index_of}
use aegon.Simd.Check.{all_bytes}
use aegon.Http1.Result.{
  Parsed, ok, error, expectation_failed, payload_too_large, not_implemented, ◌>>◌, ◌>>=◌, require,
  require_some,
}
use aegon.Http1.Text.{is_blank, is_empty, trim, parse_valid_content_length}
use aegon.Http1.Line.{Limits}

pub record Head : Type 0 where
  pub headers : HeaderMap
  pub expect_continue : Bool
  pub upgrade_h2c : Bool
  pub websocket_upgrade : Bool
  pub sec_websocket_key : Bytes
  pub content_length : ℕ
  pub has_content_length : Bool
  pub has_transfer_encoding : Bool
  pub is_chunked : Bool
  pub has_host : Bool

abbrev pub empty_head : Head
empty_head = record {
  headers = empty_map;
  expect_continue = false;
  upgrade_h2c = false;
  websocket_upgrade = false;
  sec_websocket_key = [];
  content_length = 0;
  has_content_length = false;
  has_transfer_encoding = false;
  is_chunked = false;
  has_host = false;
}

abbrev pub host_name : Bytes
host_name = (b'H' ∷ b'o' ∷ b's' ∷ b't' ∷ [])

abbrev pub expect_name : Bytes
expect_name = (b'E' ∷ b'x' ∷ b'p' ∷ b'e' ∷ b'c' ∷ b't' ∷ [])

abbrev pub upgrade_name : Bytes
upgrade_name = (b'U' ∷ b'p' ∷ b'g' ∷ b'r' ∷ b'a' ∷ b'd' ∷ b'e' ∷ [])

abbrev pub websocket_key_name : Bytes
websocket_key_name =
    (b'S' ∷ b'e' ∷ b'c' ∷ b'-' ∷ b'W' ∷ b'e' ∷ b'b' ∷ b'S' ∷ b'o' ∷ b'c' ∷ b'k' ∷ b'e' ∷ b't' ∷ b'-'
      ∷ b'K' ∷ b'e' ∷ b'y' ∷ [])

abbrev pub is_some {ℓ} : {A : Type ℓ} → Option A → Bool
is_some none = false
is_some (some a) = true

abbrev pub is_host_char : ℕ → Bool
is_host_char c = not (c == b'@' || c == b'/' || c == b',' || is_blank c)

unfoldable pub host_field : Bytes → Head → Parsed Head
unfolding all_bytes
host_field value s =
    require (not s.has_host) error
    >> (require (not (is_empty value)) error
        >> (require (all_bytes is_host_char value) error >> ok (record s { has_host = true })))

unfoldable pub expect_field : Bytes → Head → Parsed Head
unfolding iequals
expect_field value s =
    require
      (iequals value
        (b'1' ∷ b'0' ∷ b'0' ∷ b'-' ∷ b'c' ∷ b'o' ∷ b'n' ∷ b't' ∷ b'i' ∷ b'n' ∷ b'u' ∷ b'e' ∷ []))
      expectation_failed
    >> ok (record s { expect_continue = true })

unfoldable pub upgrade_field : Bytes → Head → Head
unfolding iequals index_of to_lower
upgrade_field value s =
    if iequals value (b'h' ∷ b'2' ∷ b'c' ∷ [])
    then record s { upgrade_h2c = true }
    else if is_some (
        index_of (b'w' ∷ b'e' ∷ b'b' ∷ b's' ∷ b'o' ∷ b'c' ∷ b'k' ∷ b'e' ∷ b't' ∷ []) 0
          (map to_lower value))
    then record s { websocket_upgrade = true }
    else s

unfoldable pub content_length_field : Limits → Bytes → Head → Parsed Head
unfolding parse_valid_content_length
content_length_field limits value s =
    require (not s.has_content_length) error
    >> (require_some (parse_valid_content_length value) error >>= λ n.
        require (leb n limits.max_body_size) payload_too_large
        >> ok (record s { has_content_length = true; content_length = n }))

pub keep_token : Bytes → List Bytes → List Bytes
keep_token token rest = if is_empty token then rest else token ∷ rest

-- One turn of the loop over the codings.
abbrev pub coding_round : (Bytes → List Bytes) → Bytes → List Bytes
coding_round next [] = []
coding_round next (c ∷ cs) = elim (index_of (b',' ∷ []) 0 (c ∷ cs)) [
  | none ↦ keep_token (trim (c ∷ cs)) []
  | some comma ↦ keep_token (trim (take comma (c ∷ cs))) (next (drop (suc comma) (c ∷ cs)))
]

-- The comma-separated codings; each turn drops at least one character of the value.
unfoldable pub split_codings : ℕ → Bytes → List Bytes
unfolding keep_token index_of
split_codings zero te_val = []
split_codings (suc fuel) te_val = coding_round (split_codings fuel) te_val

unfoldable pub is_chunked_coding : Bytes → Bool
unfolding iequals starts_with
is_chunked_coding c =
    iequals c (b'c' ∷ b'h' ∷ b'u' ∷ b'n' ∷ b'k' ∷ b'e' ∷ b'd' ∷ [])
    || starts_with (b'c' ∷ b'h' ∷ b'u' ∷ b'n' ∷ b'k' ∷ b'e' ∷ b'd' ∷ b';' ∷ []) c

unfoldable pub chunked_count : List Bytes → ℕ
unfolding is_chunked_coding
chunked_count [] = 0
chunked_count (c ∷ cs) =
    let rest = chunked_count cs in if is_chunked_coding c then suc rest else rest

abbrev pub back : List Bytes → Bytes
back [] = []
back (c ∷ []) = c
back (c ∷ d ∷ cs) = back (d ∷ cs)

abbrev pub has_codings : List Bytes → Bool
has_codings [] = false
has_codings (c ∷ cs) = true

unfoldable pub transfer_encoding_field : Bytes → Head → Parsed Head
unfolding split_codings chunked_count is_chunked_coding
transfer_encoding_field value s =
    let codings = split_codings (length value) value in
    require (not s.has_transfer_encoding) error
    >> (require (not (is_empty value)) error
        >> (require (has_codings codings) error
            >> (require (leb (chunked_count codings) 1) error
                >> (require (is_chunked_coding (back codings)) not_implemented
                    >> ok (record s { has_transfer_encoding = true; is_chunked = true })))))

-- switch (name.size())
unfoldable pub field : Limits → Bytes → Bytes → Head → Parsed Head
unfolding is_named host_field expect_field upgrade_field content_length_field
    transfer_encoding_field
field limits name value s =
    if is_named host_name name
    then host_field value s
    else if is_named expect_name name
    then expect_field value s
    else if is_named upgrade_name name
    then ok (upgrade_field value s)
    else if is_named content_length_name name
    then content_length_field limits value s
    else if is_named transfer_encoding_name name
    then transfer_encoding_field value s
    else if is_named websocket_key_name name
    then ok (record s { sec_websocket_key = value })
    else ok s
