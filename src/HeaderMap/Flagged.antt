-- ===== src/HeaderMap/Flagged.antt =====
-- src/http/HeaderMap.h: the invariant of the presence flags and of the array.
use aegon.Base.{
  ◌≡◌, refl, Bool, true, false, ◌||◌, List, [], ◌∷◌, arith, length, ◌≤◌, length-append, Bool-cases,
  inl, inr,
}
use aegon.Base.Bytes.{Bytes}
use aegon.HeaderMap.{
  HeaderMap, HeaderEntry, Flags, iequals, is_named, update_flags, flag_each, recompute_flags,
  push_entry, add, set_inline, set_heap, set, remove_each, remove, inline_capacity,
  content_length_name, content_type_name, date_name, transfer_encoding_name, no_flags, empty_map,
  clear,
}
use aegon.HeaderMap.Entries.{
  occurs, occurs-append, Assigned, assign_first_lem, length-remove_each, removed-occurs,
  occurs-remove_each_none,
}
use aegon.HeaderMap.Names.{length-iequals, iequals_sym, iequals_left}

-- The four names that have a flag.
pub data Known : Type 0 where
  known_length known_type known_date known_encoding : Known

abbrev pub key : Known → Bytes
key known_length = content_length_name
key known_type = content_type_name
key known_date = date_name
key known_encoding = transfer_encoding_name

abbrev pub flag : Known → Flags → Bool
flag known_length f = f.content_length
flag known_type f = f.content_type
flag known_date f = f.date
flag known_encoding f = f.transfer_encoding

-- One header raises its own flag and no other: the four names have different lengths.
pub flag-update_flags :
    (k : Known) (n : Bytes) (f : Flags)
    → flag k (update_flags n f) ≡ (iequals n (key k) || flag k f)
unfolding update_flags is_named
flag-update_flags k n f =
    let a = length-iequals n content_length_name in
    let b = length-iequals n content_type_name in
    let c = length-iequals n date_name in
    let d = length-iequals n transfer_encoding_name in
    elim k [
      | known_length ↦ ground arith
      | known_type ↦ ground arith
      | known_date ↦ ground arith
      | known_encoding ↦ ground arith
    ]

flag-flag_each :
    (k : Known) (hs : List HeaderEntry) (f : Flags)
    → flag k (flag_each hs f) ≡ (occurs (key k) hs || flag k f)
unfolding flag_each occurs
flag-flag_each k [] f = refl
flag-flag_each k (h ∷ hs) f =
    ground (arith, flag-flag_each k hs (update_flags h.name f), flag-update_flags k h.name f)

pub record IsValid (m : HeaderMap) : Type 0 where
  pub flagged :
      (k : Known)
      → flag k m.flags ≡ (occurs (key k) m.inline_headers || occurs (key k) m.heap_headers)
  pub fits : length m.inline_headers ≤ inline_capacity

flag-no_flags : (k : Known) → flag k no_flags ≡ false
flag-no_flags known_length = refl
flag-no_flags known_type = refl
flag-no_flags known_date = refl
flag-no_flags known_encoding = refl

pub empty_map-IsValid : IsValid empty_map
unfolding occurs
empty_map-IsValid = record { flagged = flag-no_flags; fits = omega arith }

-- The headers after `push_entry`, its flag apart.
module _ (n v : Bytes) (m : HeaderMap) where
  occurs-push_entry :
      (j : Bytes)
      → (occurs j (push_entry n v m).inline_headers || occurs j (push_entry n v m).heap_headers)
        ≡ (iequals n j || (occurs j m.inline_headers || occurs j m.heap_headers))
  unfolding push_entry occurs
  occurs-push_entry j =
      let e : List HeaderEntry = record { name = n; value = v } ∷ [] in
      ground (arith, occurs-append j m.inline_headers e, occurs-append j m.heap_headers e)

  flags-push_entry : (push_entry n v m).flags ≡ m.flags
  unfolding push_entry
  flags-push_entry = ground arith

  fits-push_entry :
      length m.inline_headers ≤ inline_capacity
      → length (push_entry n v m).inline_headers ≤ inline_capacity
  unfolding push_entry
  fits-push_entry h =
      ground (arith, length-append m.inline_headers (record { name = n; value = v } ∷ []))

-- The three ways that `set` ends.
pub data SetResult (n v : Bytes) (m after : HeaderMap) : Type 0 where
  in_array :
      (xs : List HeaderEntry)
      → Assigned n v m.inline_headers xs
      → after ≡ record m { inline_headers = xs; flags = update_flags n m.flags }
      → SetResult n v m after
  in_vector :
      (ys : List HeaderEntry)
      → occurs n m.inline_headers ≡ false
      → Assigned n v m.heap_headers ys
      → after ≡ record m { heap_headers = ys; flags = update_flags n m.flags }
      → SetResult n v m after
  appended :
      occurs n m.inline_headers ≡ false
      → occurs n m.heap_headers ≡ false
      → after ≡ add n v m
      → SetResult n v m after

module _ (n v : Bytes) (m : HeaderMap) (valid : IsValid m) where
  abbrev flagged_map : HeaderMap
  flagged_map = record m { flags = update_flags n m.flags }

  pub add-IsValid : IsValid (add n v m)
  unfolding add
  add-IsValid = record {
    flagged = λ k. ground (
      arith,
      flags-push_entry n v flagged_map,
      occurs-push_entry n v flagged_map (key k),
      flag-update_flags k n m.flags,
      valid.flagged k,
    );
    fits = fits-push_entry n v flagged_map valid.fits;
  }

  -- An assigned header keeps its name, so the flag that is raised again was up.
  assigned_flag :
      (k : Known) (hs : List HeaderEntry)
      → occurs n hs ≡ true
      → (iequals n (key k) || occurs (key k) hs) ≡ occurs (key k) hs
  unfolding occurs
  assigned_flag k (h ∷ hs) e =
      ground (arith, assigned_flag k hs, iequals_sym n h.name, iequals_left h.name n (key k))
  assigned_flag k [] e = ground arith

  pub set_lem : SetResult n v m (set n v m)
  unfolding set set_inline set_heap add
  set_lem = elim (assign_first_lem n v m.inline_headers) [
    | inr (xs, e, a) ↦ in_array xs a (rw e refl)
    | inl (e, none_here) ↦ elim (assign_first_lem n v m.heap_headers) [
      | inr (ys, e', a) ↦ in_vector ys none_here a (rw (e, e') refl)
      | inl (e', none_there) ↦ appended none_here none_there (rw (e, e') refl)
    ]
  ]

  pub set-IsValid : IsValid (set n v m)
  set-IsValid = elim set_lem [
    | in_array xs a e ↦ rw e (record {
      flagged = λ k. ground (
        arith,
        flag-update_flags k n m.flags,
        valid.flagged k,
        a.same_names (key k),
        assigned_flag k m.inline_headers a.was_there,
      );
      fits = omega (arith, valid.fits, a.same_length);
    })
    | in_vector ys none_here a e ↦ rw e (record {
      flagged = λ k. ground (
        arith,
        flag-update_flags k n m.flags,
        valid.flagged k,
        a.same_names (key k),
        assigned_flag k m.heap_headers a.was_there,
      );
      fits = valid.fits;
    })
    | appended none_here none_there e ↦ rw e add-IsValid
  ]

pub remove-IsValid : (n : Bytes) (m : HeaderMap) → IsValid m → IsValid (remove n m).1
unfolding remove recompute_flags
remove-IsValid n m valid =
    let inline = (remove_each n m.inline_headers).1 in
    let heap = (remove_each n m.heap_headers).1 in
    let fits : length inline ≤ inline_capacity =
      omega (arith, valid.fits, length-remove_each n m.inline_headers) in
    elim (Bool-cases ((remove_each n m.inline_headers).0 || (remove_each n m.heap_headers).0)) [
      | inl e ↦ rw e (record {
        flagged = λ k. ground (
          arith,
          flag-no_flags k,
          flag-flag_each k heap (flag_each inline no_flags),
          flag-flag_each k inline no_flags,
        );
        fits = fits;
      })
      | inr e ↦ rw e (record {
        flagged = λ k. ground (
          arith,
          valid.flagged k,
          removed-occurs n m.inline_headers,
          removed-occurs n m.heap_headers,
          occurs-remove_each_none n (key k) m.inline_headers,
          occurs-remove_each_none n (key k) m.heap_headers,
        );
        fits = fits;
      })
    ]

-- The operations that change a header map.
pub data Operation : Type 0 where
  add_header : Bytes → Bytes → Operation
  set_header : Bytes → Bytes → Operation
  remove_header : Bytes → Operation
  clear_headers : Operation

unfoldable pub apply : Operation → HeaderMap → HeaderMap
unfolding add set remove
apply (add_header n v) m = add n v m
apply (set_header n v) m = set n v m
apply (remove_header n) m = (remove n m).1
apply clear_headers m = clear m

apply-IsValid : (op : Operation) (m : HeaderMap) → IsValid m → IsValid (apply op m)
unfolding apply
apply-IsValid (add_header n v) m valid = add-IsValid n v m valid
apply-IsValid (set_header n v) m valid = set-IsValid n v m valid
apply-IsValid (remove_header n) m valid = remove-IsValid n m valid
apply-IsValid clear_headers m valid = empty_map-IsValid

unfoldable pub apply_all : List Operation → HeaderMap → HeaderMap
apply_all [] m = m
apply_all (op ∷ ops) m = apply_all ops (apply op m)

-- After any calls of add, set, remove and clear on a valid header map, in any order, each of the
-- four flags is up exactly where a header of its name is in the array or in the vector, compared
-- without case, and the array holds at most 32 headers.
pub apply_all-IsValid :
    (ops : List Operation) (m : HeaderMap) → IsValid m → IsValid (apply_all ops m)
unfolding apply_all
apply_all-IsValid [] m valid = valid
apply_all-IsValid (op ∷ ops) m valid = apply_all-IsValid ops (apply op m) (apply-IsValid op m valid)
