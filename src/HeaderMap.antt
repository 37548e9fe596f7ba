-- ===== src/HeaderMap.antt =====
-- src/http/HeaderMap.h: the header list with its four presence flags, and the comparison of names
-- of src/core/simd/SimdString.h by its scalar loop. The vector loops are in Simd.Check.
-- `inline_headers` is the first `size_` slots of the array, and a bit of `flags_` is a field.
pub mod Names
pub mod Entries
pub mod Flagged
pub mod Lookup
mod Tests
use aegon.Base.{
  ℕ, zero, suc, ◌+◌, Bool, true, false, not, ◌&&◌, ◌||◌, Option, none, some, List, [], ◌∷◌, ◌++◌,
  ltb, leb, ◌==◌, if◌then◌else◌, length,
}
use aegon.Base.Bytes.{Bytes}

-- if (ca >= 'A' && ca <= 'Z') ca += 32;
unfoldable pub to_lower : ℕ → ℕ
to_lower c = if leb b'A' c && leb c b'Z' then c + 32 else c

unfoldable pub iequals : Bytes → Bytes → Bool
unfolding to_lower
iequals [] [] = true
iequals (x ∷ xs) (y ∷ ys) = to_lower x == to_lower y && iequals xs ys
iequals _ _ = false

pub record HeaderEntry : Type 0 where
  pub name : Bytes
  pub value : Bytes

pub record Flags : Type 0 where
  pub content_length : Bool
  pub content_type : Bool
  pub date : Bool
  pub transfer_encoding : Bool

abbrev pub no_flags : Flags
no_flags = record {
  content_length = false;
  content_type = false;
  date = false;
  transfer_encoding = false;
}

pub record HeaderMap : Type 0 where
  pub inline_headers : List HeaderEntry
  pub heap_headers : List HeaderEntry
  pub flags : Flags

abbrev pub content_length_name : Bytes
content_length_name =
    b'C' ∷ b'o' ∷ b'n' ∷ b't' ∷ b'e' ∷ b'n' ∷ b't' ∷ b'-' ∷ b'L' ∷ b'e' ∷ b'n' ∷ b'g' ∷ b't' ∷ b'h'
    ∷ []

abbrev pub content_type_name : Bytes
content_type_name =
    b'C' ∷ b'o' ∷ b'n' ∷ b't' ∷ b'e' ∷ b'n' ∷ b't' ∷ b'-' ∷ b'T' ∷ b'y' ∷ b'p' ∷ b'e' ∷ []

abbrev pub date_name : Bytes
date_name = b'D' ∷ b'a' ∷ b't' ∷ b'e' ∷ []

abbrev pub transfer_encoding_name : Bytes
transfer_encoding_name =
    b'T' ∷ b'r' ∷ b'a' ∷ b'n' ∷ b's' ∷ b'f' ∷ b'e' ∷ b'r' ∷ b'-' ∷ b'E' ∷ b'n' ∷ b'c' ∷ b'o' ∷ b'd'
    ∷ b'i' ∷ b'n' ∷ b'g' ∷ []

-- name.size() == 14 && iequals(name, "Content-Length"), and so on: first the length, then the name.
unfoldable pub is_named : Bytes → Bytes → Bool
unfolding iequals
is_named key name = length name == length key && iequals name key

unfoldable pub update_flags : Bytes → Flags → Flags
unfolding is_named
update_flags name f =
    if is_named content_length_name name
    then record f { content_length = true }
    else if is_named content_type_name name
    then record f { content_type = true }
    else if is_named date_name name
    then record f { date = true }
    else if is_named transfer_encoding_name name
    then record f { transfer_encoding = true }
    else f

-- The two loops of recompute_flags, one after the other.
unfoldable pub flag_each : List HeaderEntry → Flags → Flags
unfolding update_flags
flag_each [] f = f
flag_each (h ∷ hs) f = flag_each hs (update_flags h.name f)

unfoldable pub recompute_flags : HeaderMap → HeaderMap
unfolding flag_each
recompute_flags m = record m {
  flags = flag_each m.heap_headers (flag_each m.inline_headers no_flags);
}

abbrev pub inline_capacity : ℕ
inline_capacity = 32

abbrev pub empty_map : HeaderMap
empty_map = record { inline_headers = []; heap_headers = []; flags = no_flags }

-- The end of `add` and of `set`: a slot of the array while there is one, then the vector.
unfoldable pub push_entry : Bytes → Bytes → HeaderMap → HeaderMap
push_entry n v m =
    if ltb (length m.inline_headers) inline_capacity
    then record m { inline_headers = m.inline_headers ++ (record { name = n; value = v } ∷ []) }
    else record m { heap_headers = m.heap_headers ++ (record { name = n; value = v } ∷ []) }

unfoldable pub add : Bytes → Bytes → HeaderMap → HeaderMap
unfolding push_entry update_flags
add n v m = push_entry n v (record m { flags = update_flags n m.flags })

-- A loop of `set`: the list with the first match assigned, or `none` where there is no match.
unfoldable pub assign_first : Bytes → Bytes → List HeaderEntry → Option (List HeaderEntry)
assign_first n v [] = none
assign_first n v (h ∷ hs) =
    let rest = assign_first n v hs in
    if iequals h.name n
    then some (record h { value = v } ∷ hs)
    else elim rest [ none ↦ none | some hs' ↦ some (h ∷ hs') ]

set_heap : Bytes → Bytes → Option (List HeaderEntry) → HeaderMap → HeaderMap
set_heap n v (some hs) m = record m { heap_headers = hs }
set_heap n v none m = push_entry n v m

set_inline : Bytes → Bytes → Option (List HeaderEntry) → HeaderMap → HeaderMap
set_inline n v (some hs) m = record m { inline_headers = hs }
set_inline n v none m = set_heap n v (assign_first n v m.heap_headers) m

unfoldable pub set : Bytes → Bytes → HeaderMap → HeaderMap
unfolding set_inline set_heap assign_first push_entry update_flags
set n v m =
    set_inline n v (assign_first n v m.inline_headers) (record m { flags = update_flags n m.flags })

-- A loop of `get`.
unfoldable pub find_first : Bytes → List HeaderEntry → Option Bytes
find_first n [] = none
find_first n (h ∷ hs) = if iequals h.name n then some h.value else find_first n hs

abbrev pub or_else : Option Bytes → Option Bytes → Option Bytes
or_else none o = o
or_else (some v) o = some v

unfoldable pub get : Bytes → HeaderMap → Option Bytes
unfolding is_named find_first
get n m =
    if is_named content_length_name n && not m.flags.content_length
    then none
    else if is_named date_name n && not m.flags.date
    then none
    else if is_named transfer_encoding_name n && not m.flags.transfer_encoding
    then none
    else if is_named content_type_name n && not m.flags.content_type
    then none
    else or_else (find_first n m.inline_headers) (find_first n m.heap_headers)

abbrev pub has_value : Option Bytes → Bool
has_value none = false
has_value (some v) = true

unfoldable pub contains : Bytes → HeaderMap → Bool
unfolding is_named get
contains n m =
    if is_named content_length_name n
    then m.flags.content_length
    else if is_named date_name n
    then m.flags.date
    else if is_named transfer_encoding_name n
    then m.flags.transfer_encoding
    else if is_named content_type_name n
    then m.flags.content_type
    else has_value (get n m)

abbrev pub size : HeaderMap → ℕ
size m = length m.inline_headers + length m.heap_headers

-- A loop of `remove`: the entries that stay, in their order, and whether any went.
unfoldable pub remove_each : Bytes → List HeaderEntry → Bool × List HeaderEntry
remove_each n [] = (false, [])
remove_each n (h ∷ hs) =
    let (removed, rest) = remove_each n hs in
    if iequals h.name n then (true, rest) else (removed, h ∷ rest)

unfoldable pub remove : Bytes → HeaderMap → Bool × HeaderMap
unfolding remove_each recompute_flags
remove n m =
    let (r, inline) = remove_each n m.inline_headers in
    let (r', heap) = remove_each n m.heap_headers in
    let m' : HeaderMap = record m { inline_headers = inline; heap_headers = heap } in
    (r || r', if r || r' then recompute_flags m' else m')

abbrev pub clear : HeaderMap → HeaderMap
clear m = empty_map
