-- ===== src/Http1/Clean.antt =====
-- src/http/v1/Http1Parser.h: the header lines that it accepts, and what it keeps of them.
use aegon.Base.{
  ℕ, suc, ◌≤◌, ◌≡◌, refl, ap, Bool, true, false, ◌||◌, [], ◌∷◌, ltb, arith, length, length-append,
  All, All-append, Bool-cases, inl, inr,
}
use aegon.Base.Bytes.{Bytes}
use aegon.HeaderMap.{
  HeaderMap, HeaderEntry, iequals, add, push_entry, update_flags, size, is_named,
  content_length_name, transfer_encoding_name,
}
use aegon.HeaderMap.Names.{is_named-iequals}
use aegon.HeaderMap.Flagged.{
  IsValid, add-IsValid, empty_map-IsValid, flag-update_flags, known_length, known_encoding,
}
use aegon.Simd.Check.{all_bytes, is_value_char}
use aegon.Http1.Result.{ok}
use aegon.Http1.Text.{is_empty, validate_tchars, trim_front, trim_back}
use aegon.Http1.Line.{Limits}
use aegon.Http1.Fields.{Head, host_name, empty_head}
use aegon.HeaderMap.Entries.{occurs, occurs-append}
use aegon.Http1.Headers.{add_field}
use aegon.Http1.Switch.{field_has_host, framing, field-framing}

module _ (test : ℕ → Bool) where
  pub all_bytes-trim_front :
      (cs : Bytes) → all_bytes test cs ≡ true → all_bytes test (trim_front cs) ≡ true
  unfolding all_bytes trim_front
  all_bytes-trim_front [] h = refl
  all_bytes-trim_front (c ∷ cs) h = ground (arith, h, all_bytes-trim_front cs)

  pub all_bytes-trim_back :
      (cs : Bytes) → all_bytes test cs ≡ true → all_bytes test (trim_back cs) ≡ true
  unfolding all_bytes trim_back
  all_bytes-trim_back [] h = refl
  all_bytes-trim_back (c ∷ cs) h = ground (arith, h, all_bytes-trim_back cs)

-- A field name of one or more token characters, and a value without control characters.
pub record IsClean (h : HeaderEntry) : Type 0 where
  pub some_name : is_empty h.name ≡ false
  pub tchars : validate_tchars h.name ≡ true
  pub value_chars : all_bytes is_value_char h.value ≡ true

module _ {κ} (P : HeaderEntry → Type κ) (n v : Bytes) (m : HeaderMap)
    (p : P (record { name = n; value = v })) where
  pub add-All :
      All P m.inline_headers
      → All P m.heap_headers
      → All P (add n v m).inline_headers × All P (add n v m).heap_headers
  unfolding add push_entry
  add-All h k = elim (Bool-cases (ltb (length m.inline_headers) 32)) [
    | inl e ↦
        rw e (All-append P m.inline_headers (record { name = n; value = v } ∷ []) h (p, tt), k)
    | inr e ↦ rw e (h, All-append P m.heap_headers (record { name = n; value = v } ∷ []) k (p, tt))
  ]

size-add : (n v : Bytes) (m : HeaderMap) → size (add n v m) ≡ suc (size m)
unfolding add push_entry
size-add n v m = ground (
  arith,
  length-append m.inline_headers (record { name = n; value = v } ∷ []),
  length-append m.heap_headers (record { name = n; value = v } ∷ []),
)

flags-add : (n v : Bytes) (m : HeaderMap) → (add n v m).flags ≡ update_flags n m.flags
unfolding add push_entry
flags-add n v m = ground arith

-- Whether a header of the list has the name, in either case.
abbrev pub has_header : Bytes → HeaderMap → Bool
has_header n m = occurs n m.inline_headers || occurs n m.heap_headers

has_header-add :
    (n name value : Bytes) (m : HeaderMap)
    → has_header n (add name value m) ≡ (iequals name n || has_header n m)
unfolding add push_entry occurs
has_header-add n name value m = ground (
  arith,
  occurs-append n m.inline_headers (record { name = name; value = value } ∷ []),
  occurs-append n m.heap_headers (record { name = name; value = value } ∷ []),
)

-- What the parser knows when it has read some of the headers.
pub record IsHead (limits : Limits) (s : Head) : Type 0 where
  pub valid : IsValid s.headers
  pub inline_clean : All IsClean s.headers.inline_headers
  pub heap_clean : All IsClean s.headers.heap_headers
  pub count : size s.headers ≤ limits.max_header_count
  pub bounded : s.content_length ≤ limits.max_body_size
  pub length_flag : s.has_content_length ≡ s.headers.flags.content_length
  pub encoding_flag : s.has_transfer_encoding ≡ s.headers.flags.transfer_encoding
  pub chunked_flag : s.is_chunked ≡ s.has_transfer_encoding
  pub host_flag : s.has_host ≡ has_header host_name s.headers

pub empty_head-IsHead : (limits : Limits) → IsHead limits empty_head
unfolding occurs
empty_head-IsHead limits = record {
  valid = empty_map-IsValid;
  inline_clean = tt;
  heap_clean = tt;
  count = omega arith;
  bounded = omega arith;
  length_flag = refl;
  encoding_flag = refl;
  chunked_flag = refl;
  host_flag = refl;
}

module _ (limits : Limits) (name value : Bytes) (s s' : Head)
    (e : add_field limits name value s ≡ ok s') (good : IsHead limits s)
    (clean : IsClean (record { name = name; value = value }))
    (room : suc (size s.headers) ≤ limits.max_header_count) where
  -- What `field` changes, of the list that the header was added to.
  changed :
      (framing s' ≡ (
        add name value s.headers,
        s'.content_length,
        is_named content_length_name name || s.has_content_length,
        is_named transfer_encoding_name name || s.has_transfer_encoding,
        is_named transfer_encoding_name name || s.is_chunked,
      ))
      × (s'.content_length ≤ limits.max_body_size)
  unfolding add_field
  changed =
      field-framing limits name value (record s { headers = add name value s.headers }) s' e
        good.bounded

  same_headers : s'.headers ≡ add name value s.headers
  same_headers = ap (λ f. f.0) changed.0

  host_kept : s'.has_host ≡ has_header host_name (add name value s.headers)
  unfolding add_field
  host_kept =
      let set =
        field_has_host limits name value (record s { headers = add name value s.headers }) s' e in
      ground (
        arith,
        set,
        good.host_flag,
        is_named-iequals host_name name,
        has_header-add host_name name value s.headers,
      )

  pub add_field-IsHead : IsHead limits s'
  add_field-IsHead =
      let clean' = add-All IsClean name value s.headers clean good.inline_clean good.heap_clean in
      record {
        valid = rw same_headers (add-IsValid name value s.headers good.valid);
        inline_clean = rw same_headers clean'.0;
        heap_clean = rw same_headers clean'.1;
        count = rw same_headers (omega (arith, room, size-add name value s.headers));
        bounded = changed.1;
        length_flag = ground (
          arith,
          changed.0,
          good.length_flag,
          flags-add name value s.headers,
          is_named-iequals content_length_name name,
          flag-update_flags known_length name s.headers.flags,
        );
        encoding_flag = ground (
          arith,
          changed.0,
          good.encoding_flag,
          flags-add name value s.headers,
          is_named-iequals transfer_encoding_name name,
          flag-update_flags known_encoding name s.headers.flags,
        );
        chunked_flag = ground (arith, changed.0, good.chunked_flag);
        host_flag = rw same_headers host_kept;
      }
