-- ===== src/MemStore/Valid.antt =====
-- src/data/memory/MemStore.cpp: the invariant of the store.
use aegon.Base.{
  ◌+◌, ◌≤◌, ◌<◌, ◌≡◌, refl, List, [], ◌∷◌, arith, length, leb, ap, Bool-cases, inl, inr,
}
use Prim.Native.Nat.{max}
use aegon.Base.Bytes.{Bytes, bytes_eq_iff, bytes_eq_refl}
use aegon.MemStore.{
  MemStore, Entry, back, touch, drop_entry, evict_lru, evict_back, make_room, emplace,
}
use aegon.MemStore.Counts.{
  count, entries, count-unlink, entries-erase, count-pop_back, length-pop_back, length-erase,
  length-unlink, one_if,
}

-- Table and LRU list hold the same keys, each of them once, and no more than the capacity, or one
-- where the capacity is 0.
pub record IsValid (s : MemStore) : Type 0 where
  pub linked : (j : Bytes) → count j s.lru_list ≡ entries j s.store
  pub unique : (j : Bytes) → entries j s.store ≤ 1
  pub sizes : length s.lru_list ≡ length s.store
  pub bounded : length s.store ≤ max 1 s.max_entries

module _ (k : Bytes) (s : MemStore) (v : IsValid s) where
  pub touch-IsValid : 1 ≤ entries k s.store → IsValid (touch k s)
  unfolding touch count
  touch-IsValid h = record {
    linked = λ j.
        ground (
          arith,
          v.linked j,
          v.linked k,
          v.unique j,
          count-unlink j k s.lru_list,
          bytes_eq_iff k j,
        );
    unique = v.unique;
    sizes = omega (arith, v.sizes, v.linked k, length-unlink k s.lru_list);
    bounded = v.bounded;
  }

  pub drop_entry-IsValid : IsValid (drop_entry k s)
  unfolding drop_entry
  drop_entry-IsValid = record {
    linked = λ j. omega (arith, v.linked j, count-unlink j k s.lru_list, entries-erase j k s.store);
    unique = λ j. omega (arith, v.unique j, entries-erase j k s.store);
    sizes = omega (arith, v.sizes, v.linked k, length-unlink k s.lru_list, length-erase k s.store);
    bounded = omega (arith, v.bounded, length-erase k s.store);
  }

  emplace-IsValid :
      (e : Entry)
      → entries k s.store ≡ 0
      → length s.store < max 1 s.max_entries
      → IsValid (emplace k e s)
  unfolding emplace count entries
  emplace-IsValid e fresh room = record {
    linked = λ j. omega (arith, v.linked j);
    unique = λ j. ground (arith, v.unique j, bytes_eq_iff k j);
    sizes = omega (arith, v.sizes);
    bounded = omega arith;
  }

-- Eviction of the key at the back of a list that is not empty.
module _ (s : MemStore) (v : IsValid s) (k : Bytes) (ks : List Bytes)
    (l : s.lru_list ≡ k ∷ ks) where
  back_entry : 1 ≤ entries (back k ks) s.store
  back_entry =
      let b = back k ks in
      omega (arith, v.linked b, ap (count b) l, count-pop_back b k ks, ap one_if (bytes_eq_refl b))

  evict_back-IsValid : IsValid (evict_back (k ∷ ks) s)
  unfolding evict_back
  evict_back-IsValid =
      let b = back k ks in
      record {
        linked = λ j.
            omega
              (arith, v.linked j, ap (count j) l, count-pop_back j k ks, entries-erase j b s.store);
        unique = λ j. omega (arith, v.unique j, entries-erase j b s.store);
        sizes = omega (
          arith,
          v.sizes,
          ap length l,
          length-pop_back k ks,
          length-erase b s.store,
          back_entry,
          v.unique b,
        );
        bounded = omega (arith, v.bounded, length-erase b s.store);
      }

  length-evict_back : length (evict_back (k ∷ ks) s).store + 1 ≡ length s.store
  unfolding evict_back
  length-evict_back =
      omega (arith, length-erase (back k ks) s.store, back_entry, v.unique (back k ks))

evict_back-cases :
    (s : MemStore) (l : List Bytes)
    → s.lru_list ≡ l
    → IsValid s
    → IsValid (evict_back l s) × (length (evict_back l s).store < max 1 s.max_entries)
evict_back-cases s [] e v =
    (unfold evict_back in v, unfold evict_back in omega (arith, v.sizes, ap length e))
evict_back-cases s (k ∷ ks) e v =
    (evict_back-IsValid s v k ks e, omega (arith, length-evict_back s v k ks e, v.bounded))

module _ (s : MemStore) (v : IsValid s) where
  pub make_room-IsValid : IsValid (make_room s)
  unfolding make_room evict_lru
  make_room-IsValid = elim (Bool-cases (leb s.max_entries (length s.store))) [
    | inl e ↦ rw e ((evict_back-cases s s.lru_list refl v).0)
    | inr e ↦ rw e v
  ]

  pub make_room_fits : length (make_room s).store < max 1 s.max_entries
  unfolding make_room evict_lru
  make_room_fits = elim (Bool-cases (leb s.max_entries (length s.store))) [
    | inl e ↦ rw e ((evict_back-cases s s.lru_list refl v).1)
    | inr e ↦ rw e (ground arith)
  ]

  evict_back-entries :
      (j : Bytes) (l : List Bytes) → entries j (evict_back l s).store ≤ entries j s.store
  unfolding evict_back
  evict_back-entries j [] = omega arith
  evict_back-entries j (k ∷ ks) = omega (arith, entries-erase j (back k ks) s.store)

  pub make_room-entries : (j : Bytes) → entries j (make_room s).store ≤ entries j s.store
  unfolding make_room evict_lru
  make_room-entries j = ground (arith, evict_back-entries j s.lru_list)

evict_back-max_entries :
    (s : MemStore) (l : List Bytes) → (evict_back l s).max_entries ≡ s.max_entries
unfolding evict_back
evict_back-max_entries s [] = refl
evict_back-max_entries s (k ∷ ks) = refl

pub make_room-max_entries : (s : MemStore) → (make_room s).max_entries ≡ s.max_entries
unfolding make_room evict_lru
make_room-max_entries s = ground (arith, evict_back-max_entries s s.lru_list)

-- Room is made, and the new key put in front.
pub insert-IsValid :
    (k : Bytes) (e : Entry) (s : MemStore)
    → IsValid s
    → entries k s.store ≡ 0
    → IsValid (emplace k e (make_room s))
insert-IsValid k e s v fresh =
    emplace-IsValid k (make_room s) (make_room-IsValid s v) e
      (omega (arith, make_room-entries s v k)) (rw (make_room-max_entries s) (make_room_fits s v))
