-- ===== src/Http2/Connection/Names.antt =====
-- src/http/v2/Http2Connection.cpp: the names of a field list in lower case, and a list with one field
-- more.
use mathlib.Core.Path.{subst}
use aegon.Base.{
  sym, ◌+◌, leb, ◌&&◌, ◌||◌, Bool, if◌then◌else◌, ◌≡◌, refl, ◌∙◌, true, false, List, [], ◌∷◌, ◌++◌,
  ltb, length, map, if_cases, Bool-cases, inl, inr, arith,
}
use aegon.Base.Bytes.{Bytes, bytes_eq}
use aegon.HeaderMap.{HeaderEntry, to_lower}
use aegon.HeaderMap.Names.{iequals-bytes_eq, length-iequals}
use aegon.Simd.Check.{all_bytes}
use aegon.Protocol.{
  upgrade_name, connection_name, keep_alive_name, coding_name, is_hop_by_hop_header,
  is_all_lower_ascii, to_lower_ascii,
}
use aegon.Http2.Connection.Source.{lower_name}
use aegon.Http2.Connection.Response.{Nv, NvList, push_nv, is_empty_nv, nva}

-- A name in lower case.
abbrev pub lowered : Bytes → Bytes
lowered n = map (λ c. if leb 65 c && leb c 90 then c + 32 else c) n

-- The names that only a connection uses: connection, keep-alive, transfer-encoding and upgrade, in
-- either case.
unfoldable pub is_own : Bytes → Bool
unfolding bytes_eq
is_own n =
    bytes_eq (lowered n) (b'c' ∷ b'o' ∷ b'n' ∷ b'n' ∷ b'e' ∷ b'c' ∷ b't' ∷ b'i' ∷ b'o' ∷ b'n' ∷ [])
    || (bytes_eq (lowered n)
          (b'k' ∷ b'e' ∷ b'e' ∷ b'p' ∷ b'-' ∷ b'a' ∷ b'l' ∷ b'i' ∷ b'v' ∷ b'e' ∷ [])
        || (bytes_eq (lowered n) (
              b't' ∷ b'r' ∷ b'a' ∷ b'n' ∷ b's' ∷ b'f' ∷ b'e' ∷ b'r' ∷ b'-' ∷ b'e' ∷ b'n' ∷ b'c'
              ∷ b'o' ∷ b'd' ∷ b'i' ∷ b'n' ∷ b'g' ∷ [])
            || bytes_eq (lowered n) (b'u' ∷ b'p' ∷ b'g' ∷ b'r' ∷ b'a' ∷ b'd' ∷ b'e' ∷ [])))

-- A field name in lower case that is none of the four.
abbrev pub IsSendable : Nv → Type 0
IsSendable (name, value) = (lowered name ≡ name) × (is_own name ≡ false)

abbrev pub EndToEnd : HeaderEntry → Type 0
EndToEnd h = is_own h.name ≡ false

lowered-to_lower : (n : Bytes) → map to_lower n ≡ lowered n
unfolding to_lower
lowered-to_lower n = refl

lowered_twice : (n : Bytes) → lowered (lowered n) ≡ lowered n
lowered_twice [] = refl
lowered_twice (c ∷ n) = ground (arith, lowered_twice n)

lowered_of_all_lower : (n : Bytes) → is_all_lower_ascii n ≡ true → lowered n ≡ n
unfolding is_all_lower_ascii all_bytes
lowered_of_all_lower [] h = refl
lowered_of_all_lower (c ∷ n) h = ground (arith, lowered_of_all_lower n)

pub lower_name-lowered : (n : Bytes) → lower_name n ≡ lowered n
unfolding to_lower_ascii to_lower
lower_name-lowered n =
    if_cases (λ (m : Bytes). m ≡ lowered n) (is_all_lower_ascii n) n (to_lower_ascii n)
      (λ e. sym (lowered_of_all_lower n e)) (λ e. refl)

pub is_hop_by_hop_header-is_own : (n : Bytes) → is_hop_by_hop_header n ≡ is_own n
unfolding is_hop_by_hop_header is_own to_lower
is_hop_by_hop_header-is_own n = ground (
  arith,
  length-iequals n upgrade_name,
  length-iequals n connection_name,
  length-iequals n keep_alive_name,
  length-iequals n coding_name,
  iequals-bytes_eq n upgrade_name,
  iequals-bytes_eq n connection_name,
  iequals-bytes_eq n keep_alive_name,
  iequals-bytes_eq n coding_name,
)

is_own-lowered : (n : Bytes) → is_own (lowered n) ≡ is_own n
unfolding is_own
is_own-lowered n = rw (lowered_twice n) refl

pub lower_name-IsSendable : (n v : Bytes) → is_own n ≡ false → IsSendable (lower_name n, v)
lower_name-IsSendable n v h =
    subst (λ (m : Bytes). IsSendable (m, v)) (sym (lower_name-lowered n))
      (lowered_twice n, is_own-lowered n ∙ h)

not_empty_nv : (l : List Nv) (x : Nv) → is_empty_nv (l ++ (x ∷ [])) ≡ false
not_empty_nv [] x = refl
not_empty_nv (y ∷ l) x = refl

pub nva-push_nv : (n v : Bytes) (l : NvList) → nva (push_nv n v l) ≡ nva l ++ ((n, v) ∷ [])
unfolding push_nv
nva-push_nv n v l = elim (Bool-cases (is_empty_nv l.nva_heap)) [
  | inl e ↦ elim (Bool-cases (ltb (length l.nva_stack) 16)) [
    | inl t ↦ ground (arith, e, t)
    | inr t ↦ ground (arith, e, t, not_empty_nv l.nva_stack (n, v))
  ]
  | inr e ↦ ground (arith, e, not_empty_nv l.nva_heap (n, v))
]
