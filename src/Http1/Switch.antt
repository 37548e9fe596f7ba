-- ===== src/Http1/Switch.antt =====
-- src/http/v1/Http1Parser.h: what the switch on a header's name changes of what the parser keeps.
use aegon.Base.{
  refl, if_both, if◌then◌else◌, Bool-cases, ◌==◌, ℕ, ◌≡◌, ◌≤◌, Bool, true, false, ◌||◌, arith,
  length, inl, inr,
}
use aegon.Base.Bytes.{Bytes}
use aegon.HeaderMap.{HeaderMap, is_named, content_length_name, transfer_encoding_name}
use aegon.Http1.Result.{Parsed, ok}
use aegon.Http1.Line.{Limits}
use aegon.Http1.Fields.{
  Head, host_name, websocket_key_name, expect_name, upgrade_name, host_field, expect_field,
  upgrade_field, content_length_field, transfer_encoding_field, field,
}

-- What the checks after the headers look at.
abbrev pub framing : Head → HeaderMap × ℕ × Bool × Bool × Bool
framing s =
    (s.headers, s.content_length, s.has_content_length, s.has_transfer_encoding, s.is_chunked)

host_field-framing :
    (value : Bytes) (s s' : Head) → host_field value s ≡ ok s' → framing s' ≡ framing s
unfolding host_field
host_field-framing value s s' e = ground (arith, e)

expect_field-framing :
    (value : Bytes) (s s' : Head) → expect_field value s ≡ ok s' → framing s' ≡ framing s
unfolding expect_field
expect_field-framing value s s' e = ground (arith, e)

upgrade_field-framing : (value : Bytes) (s : Head) → framing (upgrade_field value s) ≡ framing s
unfolding upgrade_field
upgrade_field-framing value s = ground arith

content_length_field-framing :
    (limits : Limits) (value : Bytes) (s s' : Head)
    → content_length_field limits value s ≡ ok s'
    → (framing s' ≡ (s.headers, s'.content_length, true, s.has_transfer_encoding, s.is_chunked))
      × (s'.content_length ≤ limits.max_body_size)
unfolding content_length_field
content_length_field-framing limits value s s' e = ground (arith, e)

transfer_encoding_field-framing :
    (value : Bytes) (s s' : Head)
    → transfer_encoding_field value s ≡ ok s'
    → framing s' ≡ (s.headers, s.content_length, s.has_content_length, true, true)
unfolding transfer_encoding_field
transfer_encoding_field-framing value s s' e = ground (arith, e)

-- Only the Host header changes whether there was one.
host_field_sets : (value : Bytes) (s s' : Head) → host_field value s ≡ ok s' → s'.has_host ≡ true
unfolding host_field
host_field_sets value s s' e = ground (arith, e)

expect_field_keeps :
    (value : Bytes) (s s' : Head) → expect_field value s ≡ ok s' → s'.has_host ≡ s.has_host
unfolding expect_field
expect_field_keeps value s s' e = ground (arith, e)

upgrade_field_keeps : (value : Bytes) (s : Head) → (upgrade_field value s).has_host ≡ s.has_host
unfolding upgrade_field
upgrade_field_keeps value s = ground arith

content_length_field_keeps :
    (limits : Limits) (value : Bytes) (s s' : Head)
    → content_length_field limits value s ≡ ok s'
    → s'.has_host ≡ s.has_host
unfolding content_length_field
content_length_field_keeps limits value s s' e = ground (arith, e)

transfer_encoding_field_keeps :
    (value : Bytes) (s s' : Head)
    → transfer_encoding_field value s ≡ ok s'
    → s'.has_host ≡ s.has_host
unfolding transfer_encoding_field
transfer_encoding_field_keeps value s s' e = ground (arith, e)

record KeepsHost (s : Head) (p : Parsed Head) : Type 0 where
  kept : (s' : Head) → p ≡ ok s' → s'.has_host ≡ s.has_host

-- The switch, past its first case.
abbrev past_host : Limits → Bytes → Bytes → Head → Parsed Head
past_host limits name value s =
    if is_named expect_name name
    then expect_field value s
    else if is_named upgrade_name name
    then ok (upgrade_field value s)
    else if is_named content_length_name name
    then content_length_field limits value s
    else if is_named transfer_encoding_name name
    then transfer_encoding_field value s
    else if is_named websocket_key_name name
    then ok (record s { sec_websocket_key = value })
    else ok s

ok_KeepsHost : (s t : Head) → t.has_host ≡ s.has_host → KeepsHost s (ok t)
ok_KeepsHost s t h = record { kept = λ s' e. ground (arith, e, h) }

field_KeepsHost :
    (limits : Limits) (name value : Bytes) (s : Head) → KeepsHost s (past_host limits name value s)
field_KeepsHost limits name value s =
    let K = KeepsHost s in
    if_both K (is_named expect_name name) _ _ (record { kept = expect_field_keeps value s })
      (if_both K (is_named upgrade_name name) _ _
        (ok_KeepsHost s (upgrade_field value s) (upgrade_field_keeps value s))
        (if_both K (is_named content_length_name name) _ _
          (record { kept = content_length_field_keeps limits value s })
          (if_both K (is_named transfer_encoding_name name) _ _
            (record { kept = transfer_encoding_field_keeps value s })
            (if_both K (is_named websocket_key_name name) _ _
              (ok_KeepsHost s (record s { sec_websocket_key = value }) refl)
              (ok_KeepsHost s s refl)))))

-- Names of different lengths are different.
other_name :
    (key key' name : Bytes)
    → is_named key name ≡ true
    → (length key == length key') ≡ false
    → is_named key' name ≡ false
unfolding is_named
other_name key key' name e ne = ground (arith, e, ne)

module _ (limits : Limits) (name value : Bytes) (s s' : Head)
    (e : field limits name value s ≡ ok s') where
  -- A header of any other name.
  other_field :
      is_named content_length_name name ≡ false
      → is_named transfer_encoding_name name ≡ false
      → framing s' ≡ framing s
  unfolding field
  other_field no_length no_encoding = elim (Bool-cases (is_named host_name name)) [
    | inl is ↦ host_field-framing value s s' (ground (arith, e, is))
    | inr isnt ↦ elim (Bool-cases (is_named expect_name name)) [
      | inl is ↦ expect_field-framing value s s' (ground (arith, e, isnt, is))
      | inr isnt' ↦
          ground (arith, e, no_length, no_encoding, isnt, isnt', upgrade_field-framing value s)
    ]
  ]

  length_field :
      is_named content_length_name name ≡ true → content_length_field limits value s ≡ ok s'
  unfolding field
  length_field is = ground (
    arith,
    e,
    is,
    other_name content_length_name host_name name is,
    other_name content_length_name expect_name name is,
    other_name content_length_name upgrade_name name is,
  )

  encoding_field :
      is_named transfer_encoding_name name ≡ true → transfer_encoding_field value s ≡ ok s'
  unfolding field
  encoding_field is = ground (
    arith,
    e,
    is,
    other_name transfer_encoding_name host_name name is,
    other_name transfer_encoding_name expect_name name is,
    other_name transfer_encoding_name upgrade_name name is,
    other_name transfer_encoding_name content_length_name name is,
  )

  pub field_has_host : s'.has_host ≡ (is_named host_name name || s.has_host)
  unfolding field
  field_has_host = elim (Bool-cases (is_named host_name name)) [
    | inl is ↦ ground (arith, is, host_field_sets value s s' (ground (arith, e, is)))
    | inr isnt ↦
        let kept : s'.has_host ≡ s.has_host =
          (field_KeepsHost limits name value s).kept s' (ground (arith, e, isnt)) in
        ground (arith, kept, isnt)
  ]

  -- What a header of name `name` changes.
  pub field-framing :
      s.content_length ≤ limits.max_body_size
      → (framing s' ≡ (
        s.headers,
        s'.content_length,
        is_named content_length_name name || s.has_content_length,
        is_named transfer_encoding_name name || s.has_transfer_encoding,
        is_named transfer_encoding_name name || s.is_chunked,
      ))
        × (s'.content_length ≤ limits.max_body_size)
  field-framing h = elim (Bool-cases (is_named content_length_name name)) [
    | inl is ↦ ground (
      arith,
      is,
      other_name content_length_name transfer_encoding_name name is,
      content_length_field-framing limits value s s' (length_field is),
    )
    | inr isnt ↦ elim (Bool-cases (is_named transfer_encoding_name name)) [
      | inl is ↦
          ground
            (arith, h, isnt, is, transfer_encoding_field-framing value s s' (encoding_field is))
      | inr isnt' ↦ ground (arith, h, isnt, isnt', other_field isnt isnt')
    ]
  ]
