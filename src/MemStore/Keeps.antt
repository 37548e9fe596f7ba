-- ===== src/MemStore/Keeps.antt =====
-- src/data/memory/MemStore.cpp: the requests, the sweep and the invariant.
use aegon.Base.{
  ℕ, ◌+◌, ◌≡◌, refl, Option, none, some, List, [], ◌∷◌, arith, if◌then◌else◌, Bool-cases, inl, inr,
  ap,
}
use aegon.Base.Bytes.{Bytes, bytes_eq_refl}
use aegon.MemStore.{
  MemStore, Entry, Table, find, assign, touch, drop_entry, do_get, get_found, is_expired, set_found,
  do_set, new_entry, del_found, do_del, incr_found, do_incr, create_counter, sweep_entries,
  sweep_expired, MemRequest, get, mget, set, del, del_many, incr, get_each, del_each, process,
}
use aegon.MemStore.Counts.{
  entries, entries-erase, entries-assign, length-assign, find-none, find-some, one_if,
}
use aegon.MemStore.Valid.{IsValid, touch-IsValid, drop_entry-IsValid, insert-IsValid}

-- Counters are no part of the invariant.
stats-IsValid : (s : MemStore) (h m : ℕ) → IsValid s → IsValid (record s { hits = h; misses = m })
stats-IsValid s h m v = record {
  linked = v.linked;
  unique = v.unique;
  sizes = v.sizes;
  bounded = v.bounded;
}

assign-IsValid :
    (k : Bytes) (e : Entry) (s : MemStore)
    → IsValid s
    → IsValid (record s { store = assign k e s.store })
assign-IsValid k e s v = record {
  linked = λ j. omega (arith, v.linked j, entries-assign j k e s.store);
  unique = λ j. omega (arith, v.unique j, entries-assign j k e s.store);
  sizes = omega (arith, v.sizes, length-assign k e s.store);
  bounded = omega (arith, v.bounded, length-assign k e s.store);
}

module _ (now : ℕ) (k : Bytes) (s : MemStore) (v : IsValid s) where
  get_found-IsValid : (o : Option Entry) → find k s.store ≡ o → IsValid (get_found now k o s).1
  unfolding get_found
  get_found-IsValid none h = stats-IsValid s s.hits (s.misses + 1) v
  get_found-IsValid (some e) h = elim (Bool-cases (is_expired now e)) [
    | inl x ↦ rw x (stats-IsValid (drop_entry k s) _ _ (drop_entry-IsValid k s v))
    | inr x ↦ rw x (stats-IsValid (touch k s) _ _ (touch-IsValid k s v (find-some k s.store e h)))
  ]

  pub do_get-IsValid : IsValid (do_get now k s).1
  unfolding do_get
  do_get-IsValid = get_found-IsValid (find k s.store) refl

  set_found-IsValid :
      (e : Entry) (o : Option Entry) → find k s.store ≡ o → IsValid (set_found k e o s)
  unfolding set_found
  set_found-IsValid e none h = insert-IsValid k e s v (find-none k s.store h)
  set_found-IsValid e (some d) h =
      unfold touch in assign-IsValid k e (touch k s) (touch-IsValid k s v (find-some k s.store d h))

  pub do_set-IsValid : (x : Bytes) (ttl : Option ℕ) → IsValid (do_set now k x ttl s)
  unfolding do_set
  do_set-IsValid x ttl = set_found-IsValid (new_entry now x ttl) (find k s.store) refl

  del_found-IsValid : (o : Option Entry) → IsValid (del_found k o s).1
  unfolding del_found
  del_found-IsValid none = v
  del_found-IsValid (some e) = drop_entry-IsValid k s v

  pub do_del-IsValid : IsValid (do_del k s).1
  unfolding do_del
  do_del-IsValid = del_found-IsValid (find k s.store)

  gone : entries k (drop_entry k s).store ≡ 0
  unfolding drop_entry
  gone = omega (arith, v.unique k, entries-erase k k s.store, ap one_if (bytes_eq_refl k))

  incr_found-IsValid : (o : Option Entry) → find k s.store ≡ o → IsValid (incr_found now k o s).1
  unfolding incr_found create_counter
  incr_found-IsValid none h = insert-IsValid k _ s v (find-none k s.store h)
  incr_found-IsValid (some e) h = elim (Bool-cases (is_expired now e)) [
    | inl x ↦ rw x (insert-IsValid k _ (drop_entry k s) (drop_entry-IsValid k s v) gone)
    | inr x ↦ rw x (
        touch-IsValid k _ (assign-IsValid k _ s v)
          (omega (arith, find-some k s.store e h, entries-assign k k _ s.store)))
  ]

  pub do_incr-IsValid : IsValid (do_incr now k s).1
  unfolding do_incr
  do_incr-IsValid = incr_found-IsValid (find k s.store) refl

sweep_entries-IsValid :
    (now : ℕ) (m : Table) (s : MemStore) → IsValid s → IsValid (sweep_entries now m s)
unfolding sweep_entries
sweep_entries-IsValid now [] s v = v
sweep_entries-IsValid now ((k, e) ∷ m) s v =
    sweep_entries-IsValid now m (if is_expired now e then drop_entry k s else s)
      (elim (Bool-cases (is_expired now e)) [
        | inl x ↦ rw x (drop_entry-IsValid k s v)
        | inr x ↦ rw x v
      ])

get_each-IsValid :
    (now : ℕ → ℕ) (i : ℕ) (ks : List Bytes) (s : MemStore)
    → IsValid s
    → IsValid (get_each now i ks s).1
unfolding get_each
get_each-IsValid now i [] s v = v
get_each-IsValid now i (k ∷ ks) s v =
    get_each-IsValid now (i + 1) ks (do_get (now i) k s).1 (do_get-IsValid (now i) k s v)

del_each-IsValid :
    (ks : List Bytes) (n : ℕ) (s : MemStore) → IsValid s → IsValid (del_each ks n s).1
unfolding del_each
del_each-IsValid [] n s v = v
del_each-IsValid (k ∷ ks) n s v = del_each-IsValid ks _ (do_del k s).1 (do_del-IsValid 0 k s v)

-- Every request keeps the table and the LRU list on the same keys, each once, within the capacity.
pub process-IsValid :
    (now : ℕ → ℕ) (r : MemRequest) (s : MemStore) → IsValid s → IsValid (process now r s).1
unfolding process
process-IsValid now (get k) s v = do_get-IsValid (now 0) k s v
process-IsValid now (mget ks) s v = get_each-IsValid now 0 ks s v
process-IsValid now (set k x ttl) s v = do_set-IsValid (now 0) k s v x ttl
process-IsValid now (del k) s v = do_del-IsValid 0 k s v
process-IsValid now (del_many ks) s v = del_each-IsValid ks 0 s v
process-IsValid now (incr k) s v = do_incr-IsValid (now 0) k s v

pub sweep_expired-IsValid : (now : ℕ) (s : MemStore) → IsValid s → IsValid (sweep_expired now s)
unfolding sweep_expired
sweep_expired-IsValid now s v = sweep_entries-IsValid now s.store s v
