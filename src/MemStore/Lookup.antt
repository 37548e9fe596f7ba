-- ===== src/MemStore/Lookup.antt =====
-- src/data/memory/MemStore.cpp: `do_get` right after another operation.
use aegon.Base.{
  ℕ, ◌≤◌, ◌≡◌, refl, Bool, true, false, Option, none, some, List, [], ◌∷◌, arith, if◌then◌else◌,
  length, Bool-cases, inl, inr, ◌&&◌, leb, not,
}
use aegon.Base.Bytes.{Bytes, bytes_eq, bytes_eq_iff}
use aegon.MemStore.{
  MemStore, Entry, Table, find, erase, assign, touch, drop_entry, do_get, get_found, is_expired,
  set_found, do_set, new_entry, back, evict_back, evict_lru, make_room, emplace, do_del, del_found,
}
use aegon.MemStore.Counts.{entries, find-some, find-eq-none}
use aegon.MemStore.Valid.{IsValid}

pub find-erase :
    (j k : Bytes) (m : Table)
    → entries k m ≤ 1
    → find j (erase k m) ≡ (if bytes_eq k j then none else find j m)
unfolding find erase entries
find-erase j k [] h = ground arith
find-erase j k ((i, d) ∷ m) h = ground (
  arith,
  bytes_eq_iff i k,
  bytes_eq_iff i j,
  bytes_eq_iff k j,
  find-erase j k m,
  find-eq-none k m,
)

pub find-assign :
    (j k : Bytes) (e : Entry) (m : Table)
    → 1 ≤ entries k m
    → find j (assign k e m) ≡ (if bytes_eq k j then some e else find j m)
unfolding find assign entries
find-assign j k e [] h = absurd (omega arith)
find-assign j k e ((i, d) ∷ m) h =
    ground (arith, bytes_eq_iff i k, bytes_eq_iff i j, bytes_eq_iff k j, find-assign j k e m)

-- What a reader is shown of an entry.
abbrev pub answer : ℕ → Option Entry → Option Bytes
answer now none = none
answer now (some e) = if is_expired now e then none else some e.value

pub do_get-answer :
    (now : ℕ) (k : Bytes) (s : MemStore) → (do_get now k s).0 ≡ answer now (find k s.store)
unfolding do_get get_found
do_get-answer now k s = ground arith

-- Whether storing a new key `k` drops the key `j`: `k` is not there, the store is full, and `j` is
-- at the back of the LRU list.
abbrev pub is_back : Bytes → List Bytes → Bool
is_back j [] = false
is_back j (k ∷ ks) = bytes_eq (back k ks) j

abbrev pub is_none : Option Entry → Bool
is_none none = true
is_none (some e) = false

unfoldable pub evicts : Bytes → Bytes → MemStore → Bool
evicts k j s =
    is_none (find k s.store) && (leb s.max_entries (length s.store) && is_back j s.lru_list)

evict_back-find :
    (j : Bytes) (l : List Bytes) (s : MemStore)
    → IsValid s
    → find j (evict_back l s).store ≡ (if is_back j l then none else find j s.store)
unfolding evict_back
evict_back-find j [] s v = refl
evict_back-find j (k ∷ ks) s v = find-erase j (back k ks) s.store (v.unique (back k ks))

pub make_room-find :
    (j : Bytes) (s : MemStore)
    → IsValid s
    → find j (make_room s).store ≡ (
        if leb s.max_entries (length s.store) && is_back j s.lru_list then none else find j s.store)
unfolding make_room evict_lru
make_room-find j s v = ground (arith, evict_back-find j s.lru_list s v)

module _ (now : ℕ) (k x : Bytes) (ttl : Option ℕ) (s : MemStore) (v : IsValid s) where
  set_found-find :
      (e : Entry) (j : Bytes) (o : Option Entry)
      → find k s.store ≡ o
      → find j (set_found k e o s).store
        ≡ (if bytes_eq k j then some e else if evicts k j s then none else find j s.store)
  unfolding set_found emplace touch find evicts
  set_found-find e j none h = ground (arith, make_room-find j s v)
  set_found-find e j (some d) h =
      ground (arith, find-assign j k e s.store (find-some k s.store d h))

  pub do_set-find :
      (j : Bytes)
      → find j (do_set now k x ttl s).store ≡ (
          if bytes_eq k j
          then some (new_entry now x ttl)
          else if evicts k j s
          then none
          else find j s.store)
  unfolding do_set
  do_set-find j = set_found-find (new_entry now x ttl) j (find k s.store) refl

  -- What a read of any key `j` returns after `k` was set: the new value until its time is up, for
  -- `k` itself; nothing for the one key that was dropped to make room; and for all others what it
  -- returned before.
  pub do_get-do_set :
      (now' : ℕ) (j : Bytes)
      → (do_get now' j (do_set now k x ttl s)).0 ≡ (
          if bytes_eq k j
          then answer now' (some (new_entry now x ttl))
          else if evicts k j s
          then none
          else (do_get now' j s).0)
  do_get-do_set now' j =
      rw (do_get-answer now' j (do_set now k x ttl s), do_set-find j, do_get-answer now' j s)
        (ground arith)

module _ (k : Bytes) (s : MemStore) (v : IsValid s) where
  del_found-find :
      (j : Bytes) (o : Option Entry)
      → find k s.store ≡ o
      → find j (del_found k o s).1.store ≡ (if bytes_eq k j then none else find j s.store)
  unfolding del_found drop_entry
  del_found-find j none h = ground (arith, bytes_eq_iff k j)
  del_found-find j (some e) h = find-erase j k s.store (v.unique k)

  pub do_get-do_del :
      (now' : ℕ) (j : Bytes)
      → ((do_get now' j (do_del k s).1).0 ≡ (if bytes_eq k j then none else (do_get now' j s).0))
        × ((do_del k s).0 ≡ not (is_none (find k s.store)))
  unfolding do_del
  do_get-do_del now' j = (
    rw
        (
          do_get-answer now' j (del_found k (find k s.store) s).1,
          del_found-find j (find k s.store) refl,
          do_get-answer now' j s,
        )
        (ground arith),
    unfold del_found in ground arith,
  )

  pub drop_expired-answer :
      (e : Entry) (now now' : ℕ) (j : Bytes)
      → find k s.store ≡ some e
      → is_expired now e ≡ true
      → now ≤ now'
      → answer now' (find j (drop_entry k s).store) ≡ answer now' (find j s.store)
  unfolding drop_entry is_expired
  drop_expired-answer e now now' j f x le =
      rw (find-erase j k s.store (v.unique k)) (ground (arith, bytes_eq_iff k j))

  get_found-answer :
      (now now' : ℕ) (j : Bytes) (o : Option Entry)
      → find k s.store ≡ o
      → now ≤ now'
      → answer now' (find j (get_found now k o s).1.store) ≡ answer now' (find j s.store)
  unfolding get_found touch
  get_found-answer now now' j none f le = refl
  get_found-answer now now' j (some e) f le = elim (Bool-cases (is_expired now e)) [
    | inl x ↦ rw x (drop_expired-answer e now now' j f x le)
    | inr x ↦ rw x
  ]

  pub do_get-do_get :
      (now now' : ℕ) (j : Bytes)
      → now ≤ now'
      → (do_get now' j (do_get now k s).1).0 ≡ (do_get now' j s).0
  do_get-do_get now now' j le =
      rw (do_get-answer now' j (do_get now k s).1, do_get-answer now' j s)
        (unfold do_get in get_found-answer now now' j (find k s.store) refl le)
