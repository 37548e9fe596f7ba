-- ===== src/Http2/Connection/Bounded.antt =====
-- src/http/v2/Http2Connection.cpp: the bounds of a connection and of its streams.
use aegon.Base.{
  refl, ◌+◌, ◌++◌, ℕ, suc, ◌≤◌, ◌<◌, ◌≡◌, Bool, true, false, some, List, [], ◌∷◌, ◌==◌, arith,
  length, Option-cases, Bool-cases, inl, inr,
}
use aegon.Base.Bytes.{Bytes}
use aegon.HeaderMap.{HeaderMap, HeaderEntry, add, push_entry}
use aegon.HeaderMap.Flagged
use aegon.HeaderMap.Flagged.{add-IsValid, empty_map-IsValid}
use aegon.Http1.Line.{Limits}
use aegon.Protocol.{StatusCode, is_ok}
use aegon.Http2.Connection.{
  Stream, Connection, Setup, new_stream, new_connection, contains, erase, find_id, put_id, erase_id,
  get_or_create_stream, put_stream, reset_stream,
}

module _ {A : Type 0} (P : A → Type 0) where
  abbrev pub Each : List (ℕ × A) → Type 0
  Each [] = Unit
  Each ((i, a) ∷ rest) = P a × Each rest

  pub put_id-Each : (i : ℕ) (a : A) (xs : List (ℕ × A)) → P a → Each xs → Each (put_id i a xs)
  unfolding put_id
  put_id-Each i a [] p h = (p, tt)
  put_id-Each i a ((j, b) ∷ rest) p (q, h) = elim (Bool-cases (i == j)) [
    | inl e ↦ rw e (p, h)
    | inr e ↦ rw e (q, put_id-Each i a rest p h)
  ]

  pub erase_id-Each : (i : ℕ) (xs : List (ℕ × A)) → Each xs → Each (erase_id i xs)
  unfolding erase_id
  erase_id-Each i [] h = tt
  erase_id-Each i ((j, b) ∷ rest) (q, h) = elim (Bool-cases (i == j)) [
    | inl e ↦ rw e h
    | inr e ↦ rw e (q, erase_id-Each i rest h)
  ]

  pub find_id-Each : (i : ℕ) (xs : List (ℕ × A)) (a : A) → Each xs → find_id i xs ≡ some a → P a
  unfolding find_id
  find_id-Each i [] a h e = absurd (ground (arith, e))
  find_id-Each i ((j, b) ∷ rest) a (q, h) e = elim (Bool-cases (i == j)) [
    | inl t ↦ let same : a ≡ b = ground (arith, e, t) in rw same q
    | inr t ↦ find_id-Each i rest a h (ground (arith, e, t))
  ]

abbrev entry_bytes : List HeaderEntry → ℕ
entry_bytes [] = 0
entry_bytes (h ∷ hs) = length h.name + length h.value + entry_bytes hs

-- The bytes of the names and the values in a header map.
abbrev pub header_bytes : HeaderMap → ℕ
header_bytes m = entry_bytes m.inline_headers + entry_bytes m.heap_headers

entry_bytes-append :
    (xs ys : List HeaderEntry) → entry_bytes (xs ++ ys) ≡ entry_bytes xs + entry_bytes ys
entry_bytes-append [] ys = omega arith
entry_bytes-append (h ∷ xs) ys = omega (arith, entry_bytes-append xs ys)

pub header_bytes-add :
    (n v : Bytes) (m : HeaderMap)
    → header_bytes (add n v m) ≡ header_bytes m + (length n + length v)
unfolding add push_entry
header_bytes-add n v m = ground (
  arith,
  entry_bytes-append m.inline_headers (record { name = n; value = v } ∷ []),
  entry_bytes-append m.heap_headers (record { name = n; value = v } ∷ []),
)

-- What is kept of a stream's body, header map, size of its header section and status.
pub record IsWithin (limits : Limits) (body : Bytes) (hs : HeaderMap) (total : ℕ)
    (status : StatusCode) : Type 0 where
  pub fits : length body ≤ limits.max_body_size
  pub flagged : Flagged.IsValid hs
  pub covered : header_bytes hs ≤ total
  pub limited : limits.max_headers_size < total → is_ok status ≡ false

abbrev pub IsStream : Limits → Stream → Type 0
IsStream limits s = IsWithin limits s.body_accum s.headers s.headers_total_size s.error_status

pub new_stream-IsStream : (limits : Limits) → IsStream limits new_stream
new_stream-IsStream limits = record {
  fits = omega arith;
  flagged = empty_map-IsValid;
  covered = omega arith;
  limited = λ h. absurd (omega (arith, h));
}

-- `k` is the number of RST_STREAM frames that were received.
pub record IsWithinSetup (cfg : Setup) (k : ℕ) (streams : List (ℕ × Stream)) (closed_ids : List ℕ)
    (closed : Bool) (rst_count : ℕ) : Type 0 where
  pub each : Each (IsStream cfg.limits) streams
  pub ids : length closed_ids ≤ 1024
  pub counted : rst_count ≡ k
  pub resets : closed ≡ false → k ≤ cfg.rst_burst_limit

abbrev pub IsBounded : Setup → ℕ → Connection → Type 0
IsBounded cfg k c = IsWithinSetup cfg k c.streams c.closed_stream_ids c.closed c.rst_count

pub shrinks : (i : ℕ) (js : List ℕ) → length (erase i js) ≤ length js
unfolding erase
shrinks i [] = omega arith
shrinks i (j ∷ js) = ground (arith, shrinks i js)

pub length-erase :
    (i : ℕ) (js : List ℕ) → contains i js ≡ true → suc (length (erase i js)) ≤ length js
unfolding contains erase
length-erase i [] h = absurd (ground (arith, h))
length-erase i (j ∷ js) h = ground (arith, h, length-erase i js, shrinks i js)

pub new_connection-IsBounded : (cfg : Setup) → IsBounded cfg 0 new_connection
new_connection-IsBounded cfg = record {
  each = tt;
  ids = omega arith;
  counted = refl;
  resets = λ open_now. omega arith;
}

-- Each event keeps the bounds.
pub put_stream-IsBounded :
    (cfg : Setup) (k sid : ℕ) (s : Stream) (c : Connection)
    → IsStream cfg.limits s
    → IsBounded cfg k c
    → IsBounded cfg k (put_stream sid s c)
unfolding put_stream
put_stream-IsBounded cfg k sid s c p h = record {
  each = put_id-Each (IsStream cfg.limits) sid s c.streams p h.each;
  ids = h.ids;
  counted = h.counted;
  resets = h.resets;
}

pub get_or_create_stream-IsStream :
    (cfg : Setup) (k sid : ℕ) (c : Connection)
    → IsBounded cfg k c
    → IsStream cfg.limits (get_or_create_stream sid c)
unfolding get_or_create_stream
get_or_create_stream-IsStream cfg k sid c h = elim (Option-cases (find_id sid c.streams)) [
  | inl e ↦ rw e (new_stream-IsStream cfg.limits)
  | inr (s, e) ↦ rw e (find_id-Each (IsStream cfg.limits) sid c.streams s h.each e)
]

pub reset_stream-IsBounded :
    (cfg : Setup) (k sid : ℕ) (c : Connection)
    → IsBounded cfg k c
    → IsBounded cfg k (reset_stream sid c)
unfolding reset_stream put_stream
reset_stream-IsBounded cfg k sid c h = elim (Option-cases (find_id sid c.streams)) [
  | inl e ↦ rw e h
  | inr (s, e) ↦
      let p = find_id-Each (IsStream cfg.limits) sid c.streams s h.each e in
      rw e (put_stream-IsBounded cfg k sid (record s { reset = true }) c p h)
]
