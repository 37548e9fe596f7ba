-- ===== src/HeaderMap/Lookup.antt =====
-- src/http/HeaderMap.h: lookups, and lookups after a change.
use aegon.Base.{
  ◌≡◌, true, false, ◌||◌, Option, none, some, List, [], ◌∷◌, ◌++◌, arith, ◌⊎◌, inl, inr,
  if◌then◌else◌, ltb, length,
}
use aegon.Base.Bytes.{Bytes}
use aegon.HeaderMap.{
  HeaderMap, HeaderEntry, iequals, get, contains, has_value, find_first, or_else, set, remove,
  remove_each, recompute_flags, add, push_entry, content_length_name, content_type_name, date_name,
  transfer_encoding_name,
}
use aegon.HeaderMap.Names.{is_named-iequals}
use aegon.HeaderMap.Entries.{
  occurs, occurs_same, find_first-append, has_value-find_first, find_first-remove_each,
  removed-occurs,
}
use aegon.HeaderMap.Flagged.{
  IsValid, Known, key, flag, SetResult, set_lem, set-IsValid, add-IsValid, remove-IsValid,
}

module _ (n : Bytes) (m : HeaderMap) (valid : IsValid m) where
  -- A flag that is down rules its name out.
  absent :
      (k : Known)
      → iequals n (key k) ≡ true
      → flag k m.flags ≡ false
      → or_else (find_first n m.inline_headers) (find_first n m.heap_headers) ≡ none
  absent k e down = ground (
    arith,
    valid.flagged k,
    occurs_same n (key k) m.inline_headers e,
    occurs_same n (key k) m.heap_headers e,
    has_value-find_first n m.inline_headers,
    has_value-find_first n m.heap_headers,
  )

  get-or_else : get n m ≡ or_else (find_first n m.inline_headers) (find_first n m.heap_headers)
  unfolding get
  get-or_else =
      rw
        (
          is_named-iequals content_length_name n,
          is_named-iequals date_name n,
          is_named-iequals transfer_encoding_name n,
          is_named-iequals content_type_name n,
        )
        (ground (
          arith,
          absent Known.known_length,
          absent Known.known_date,
          absent Known.known_encoding,
          absent Known.known_type,
        ))

  -- In a valid header map, `get` returns the value of the first header of that name, compared
  -- without case, in the array followed by the vector: the early returns on a flag that is down
  -- change no result.
  pub get-find_first : get n m ≡ find_first n (m.inline_headers ++ m.heap_headers)
  get-find_first = ground (arith, get-or_else, find_first-append n m.inline_headers m.heap_headers)

  has_value-get : has_value (get n m) ≡ (occurs n m.inline_headers || occurs n m.heap_headers)
  has_value-get = ground (
    arith,
    get-or_else,
    has_value-find_first n m.inline_headers,
    has_value-find_first n m.heap_headers,
  )

  flag-get : (k : Known) → iequals n (key k) ≡ true → flag k m.flags ≡ has_value (get n m)
  flag-get k e = ground (
    arith,
    has_value-get,
    valid.flagged k,
    occurs_same n (key k) m.inline_headers e,
    occurs_same n (key k) m.heap_headers e,
  )

  pub contains-get : contains n m ≡ has_value (get n m)
  unfolding contains
  contains-get =
      rw
        (
          is_named-iequals content_length_name n,
          is_named-iequals date_name n,
          is_named-iequals transfer_encoding_name n,
          is_named-iequals content_type_name n,
        )
        (ground (
          arith,
          flag-get Known.known_length,
          flag-get Known.known_date,
          flag-get Known.known_encoding,
          flag-get Known.known_type,
        ))

find_first_absent :
    (n j : Bytes) (hs : List HeaderEntry)
    → occurs n hs ≡ false
    → iequals n j ≡ true
    → find_first j hs ≡ none
find_first_absent n j hs e same = ground (arith, occurs_same n j hs same, has_value-find_first j hs)

-- Where the next header goes: at the end of all, if the array is full or the vector is empty.
abbrev pub IsPacked : HeaderMap → Type 0
IsPacked m = (ltb (length m.inline_headers) 32 ≡ false) ⊎ (m.heap_headers ≡ [])

module _ (j n v : Bytes) (m : HeaderMap) where
  abbrev new_value : Option Bytes
  new_value = if iequals n j then some v else none

  push_entry-found :
      or_else
        (find_first j (push_entry n v m).inline_headers)
        (find_first j (push_entry n v m).heap_headers)
      ≡ or_else (find_first j m.inline_headers) (
          if ltb (length m.inline_headers) 32
          then or_else new_value (find_first j m.heap_headers)
          else or_else (find_first j m.heap_headers) new_value)
  unfolding push_entry find_first
  push_entry-found =
      let e : List HeaderEntry = record { name = n; value = v } ∷ [] in
      ground (arith, find_first-append j m.inline_headers e, find_first-append j m.heap_headers e)

module _ (j n v : Bytes) (m : HeaderMap) (valid : IsValid m) where
  get-add_push :
      get j (add n v m)
      ≡ or_else
          (find_first j (push_entry n v m).inline_headers)
          (find_first j (push_entry n v m).heap_headers)
  unfolding add push_entry
  get-add_push = ground (arith, get-or_else j (add n v m) (add-IsValid n v m valid))

  -- Adding a header to a valid map whose array is full or whose vector is empty, and reading any
  -- name: what was read before, or the new value where there was none and the names are equal
  -- without case.
  pub get-add :
      IsPacked m → get j (add n v m) ≡ or_else (get j m) (if iequals n j then some v else none)
  get-add packed =
      rw (get-add_push, push_entry-found j n v m, get-or_else j m valid)
        (elim packed [
          | inl full ↦ ground arith
          | inr empty ↦ rw empty (unfold find_first in ground arith)
        ])

  pub get-set : get j (set n v m) ≡ (if iequals n j then some v else get j m)
  get-set =
      rw (get-or_else j (set n v m) (set-IsValid n v m valid), get-or_else j m valid)
        (elim (set_lem n v m valid) [
          | SetResult.in_array xs a e ↦ rw e (ground (arith, a.reads j))
          | SetResult.in_vector ys none_here a e ↦
              rw e (ground (arith, a.reads j, find_first_absent n j m.inline_headers none_here))
          | SetResult.appended none_here none_there e ↦ rw e (
              ground (
                arith,
                get-add_push,
                get-or_else j (add n v m) (add-IsValid n v m valid),
                push_entry-found j n v m,
                find_first_absent n j m.inline_headers none_here,
                find_first_absent n j m.heap_headers none_there,
              ))
        ])

module _ (j n : Bytes) (m : HeaderMap) (valid : IsValid m) where
  remove-found :
      or_else
        (find_first j (remove n m).1.inline_headers)
        (find_first j (remove n m).1.heap_headers)
      ≡ or_else
          (find_first j (remove_each n m.inline_headers).1)
          (find_first j (remove_each n m.heap_headers).1)
  unfolding remove recompute_flags
  remove-found = ground arith

  remove-removed : (remove n m).0 ≡ (occurs n m.inline_headers || occurs n m.heap_headers)
  unfolding remove
  remove-removed =
      ground (arith, removed-occurs n m.inline_headers, removed-occurs n m.heap_headers)

  pub get-remove :
      (get j (remove n m).1 ≡ (if iequals n j then none else get j m))
      × ((remove n m).0 ≡ contains n m)
  get-remove = (
    ground (
      arith,
      get-or_else j (remove n m).1 (remove-IsValid n m valid),
      remove-found,
      get-or_else j m valid,
      find_first-remove_each n j m.inline_headers,
      find_first-remove_each n j m.heap_headers,
    ),
    ground (arith, remove-removed, contains-get n m valid, has_value-get n m valid),
  )

-- In a valid map, after `set` a read of any name gives the new value where the names are equal
-- without case, and what was read before for every other name. After `remove` it gives nothing where
-- the names are equal without case, and what was read before otherwise; `remove` returns whether the
-- name was there, as `contains` says. `contains` says whether `get` returns a value, although it
-- answers four names from a flag alone.
pub get_after :
    (j n v : Bytes) (m : HeaderMap)
    → IsValid m
    → (get j (set n v m) ≡ (if iequals n j then some v else get j m))
      × (get j (remove n m).1 ≡ (if iequals n j then none else get j m))
      × ((remove n m).0 ≡ contains n m)
      × (contains n m ≡ has_value (get n m))
get_after j n v m valid =
    let removed = get-remove j n m valid in
    (get-set j n v m valid, removed.0, removed.1, contains-get n m valid)
