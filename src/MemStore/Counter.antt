-- ===== src/MemStore/Counter.antt =====
-- src/data/memory/MemStore.cpp: repeated calls of `do_incr`.
use aegon.Base.{
  ℕ, zero, suc, ◌+◌, ◌^◌, ◌≤◌, ◌<◌, ◌≡◌, refl, true, false, none, some, arith, inl, inr, ◌⊎◌,
}
use aegon.Base.Bytes.{Bytes, bytes_eq_refl}
use aegon.Base.Decimal.{ℤ, pos, IsInt64, stoll, to_string_int, stoll-to_string_int}
use aegon.MemStore.{
  MemStore, Entry, find, touch, is_expired, do_incr, incr_found, create_counter, increment,
  value_or_zero, emplace, drop_entry,
}
use aegon.MemStore.Counts.{entries, find-some}
use aegon.MemStore.Valid.{IsValid}
use aegon.MemStore.Keeps.{do_incr-IsValid}
use aegon.MemStore.Lookup.{find-assign}

-- The entry that holds the number `z` and never expires.
abbrev pub counter : ℤ → Entry
counter z = record { value = to_string_int z; expires_at = none }

module _ (now : ℕ) (k : Bytes) (s : MemStore) (v : IsValid s) where
  incr_found_next :
      (z : ℤ) (e : Entry)
      → IsInt64 z
      → 1 ≤ entries k s.store
      → e.value ≡ to_string_int z
      → is_expired now e ≡ false
      → ((incr_found now k (some e) s).0 ≡ increment z)
        × (find k (incr_found now k (some e) s).1.store
            ≡ some (record e { value = to_string_int (increment z) }))
  unfolding incr_found touch
  incr_found_next z e int here val live =
      let val' : value_or_zero (stoll e.value) ≡ z = rw (val, stoll-to_string_int z int) in
      (rw (live, val'), rw (live, val') (rw (find-assign k k _ s.store here, bytes_eq_refl k)))

  -- On an entry that holds a number and has not expired, the result is the next number, and the
  -- entry holds that, with the time that it had.
  pub do_incr_next :
      (z : ℤ) (e : Entry)
      → IsInt64 z
      → find k s.store ≡ some e
      → e.value ≡ to_string_int z
      → is_expired now e ≡ false
      → ((do_incr now k s).0 ≡ increment z)
        × (find k (do_incr now k s).1.store
            ≡ some (record e { value = to_string_int (increment z) }))
  unfolding do_incr
  do_incr_next z e int f val live =
      rw f (incr_found_next z e int (find-some k s.store e f) val live)

  create_counter-find :
      (t : MemStore)
      → ((create_counter k t).0 ≡ pos 1)
        × (find k (create_counter k t).1.store ≡ some (counter (pos 1)))
  unfolding create_counter emplace find
  create_counter-find t = (refl, rw (bytes_eq_refl k))

  -- On a key that is not there, or has expired, counting starts at 1 with no time limit.
  pub do_incr_first :
      (find k s.store ≡ none)
        ⊎ ((e : Entry) × (find k s.store ≡ some e) × (is_expired now e ≡ true))
      → ((do_incr now k s).0 ≡ pos 1) × (find k (do_incr now k s).1.store ≡ some (counter (pos 1)))
  unfolding do_incr
  do_incr_first (inl f) = rw f (unfold incr_found in create_counter-find s)
  do_incr_first (inr (e, f, x)) =
      rw f (unfold incr_found in rw x (create_counter-find (drop_entry k s)))

-- `n` more increments, at any times.
abbrev pub incr_times : (ℕ → ℕ) → Bytes → ℕ → MemStore → ℤ × MemStore
incr_times now k zero s = do_incr (now 0) k s
incr_times now k (suc n) s = do_incr (now (suc n)) k (incr_times now k n s).1

incr_times-IsValid :
    (now : ℕ → ℕ) (k : Bytes) (n : ℕ) (s : MemStore) → IsValid s → IsValid (incr_times now k n s).1
incr_times-IsValid now k zero s v = do_incr-IsValid (now 0) k s v
incr_times-IsValid now k (suc n) s v =
    do_incr-IsValid (now (suc n)) k (incr_times now k n s).1 (incr_times-IsValid now k n s v)

-- From a key that is not there, the (n + 1)-th increment returns n + 1, for every number below the
-- largest int64_t, and leaves a counter that holds it.
pub do_incr_counts :
    (now : ℕ → ℕ) (k : Bytes) (n : ℕ) (s : MemStore)
    → IsValid s
    → find k s.store ≡ none
    → n + 1 < 2 ^ 63
    → ((incr_times now k n s).0 ≡ pos (n + 1))
      × (find k (incr_times now k n s).1.store ≡ some (counter (pos (n + 1))))
do_incr_counts now k zero s v f small = do_incr_first (now 0) k s v (inl f)
do_incr_counts now k (suc n) s v f small =
    let (_, held) = do_incr_counts now k n s v f (omega arith) in
    let t = (incr_times now k n s).1 in
    let next =
      do_incr_next (now (suc n)) k t (incr_times-IsValid now k n s v) (pos (n + 1))
        (counter (pos (n + 1))) (omega arith) held refl (unfold is_expired in refl) in
    let e : n + 1 + 1 ≡ suc n + 1 = omega arith in rw e at next
