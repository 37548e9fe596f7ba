-- ===== src/MemStore/Sweep.antt =====
-- src/data/memory/MemStore.cpp: `do_get` right after the periodic sweep.
use aegon.Base.{ℕ, ◌≤◌, ◌≡◌, refl, ◌∙◌, some, [], ◌∷◌, arith, Bool-cases, inl, inr}
use aegon.Base.Bytes.{Bytes, bytes_eq_refl}
use aegon.MemStore.{
  MemStore, Entry, Table, find, drop_entry, do_get, is_expired, sweep_expired, sweep_entries,
}
use aegon.MemStore.Counts.{entries, find-some}
use aegon.MemStore.Valid.{IsValid, drop_entry-IsValid}
use aegon.MemStore.Lookup.{answer, do_get-answer, drop_expired-answer, find-erase}

-- The entries still to be visited are those of the store.
record IsAhead (m : Table) (s : MemStore) : Type 0 where
  once : (j : Bytes) → entries j m ≤ 1
  same : (j : Bytes) (e : Entry) → find j m ≡ some e → find j s.store ≡ some e

module _ (k : Bytes) (e : Entry) (m : Table) (s : MemStore) (v : IsValid s)
    (a : IsAhead ((k, e) ∷ m) s) where
  here : find k s.store ≡ some e
  unfolding find
  here = a.same k e (rw (bytes_eq_refl k))

  IsAhead-kept : IsAhead m s
  unfolding find entries
  IsAhead-kept = record {
    once = λ j. omega (arith, a.once j);
    same = λ j d f. a.same j d (ground (arith, a.once j, find-some j m d f));
  }

  IsAhead-dropped : IsAhead m (drop_entry k s)
  unfolding drop_entry entries
  IsAhead-dropped = record {
    once = IsAhead-kept.once;
    same = λ j d f.
        rw (find-erase j k s.store (v.unique k))
          (ground (arith, a.once j, find-some j m d f, IsAhead-kept.same j d f));
  }

sweep_entries-answer :
    (now now' : ℕ) (j : Bytes) (m : Table) (s : MemStore)
    → now ≤ now'
    → IsValid s
    → IsAhead m s
    → answer now' (find j (sweep_entries now m s).store) ≡ answer now' (find j s.store)
unfolding sweep_entries
sweep_entries-answer now now' j [] s le v a = refl
sweep_entries-answer now now' j ((k, e) ∷ m) s le v a = elim (Bool-cases (is_expired now e)) [
  | inl x ↦
      rw (x, sweep_entries)
        (sweep_entries-answer now now' j m (drop_entry k s) le (drop_entry-IsValid k s v)
            (IsAhead-dropped k e m s v a)
          ∙ drop_expired-answer k s v e now now' j (here k e m s v a) x le)
  | inr x ↦
      rw (x, sweep_entries) (sweep_entries-answer now now' j m s le v (IsAhead-kept k e m s v a))
]

-- The first read after the sweep returns what it returns without the sweep.
pub do_get-sweep_expired :
    (now now' : ℕ) (j : Bytes) (s : MemStore)
    → IsValid s
    → now ≤ now'
    → (do_get now' j (sweep_expired now s)).0 ≡ (do_get now' j s).0
unfolding sweep_expired
do_get-sweep_expired now now' j s v le =
    rw (do_get-answer now' j (sweep_entries now s.store s), do_get-answer now' j s)
      (sweep_entries-answer now now' j s.store s le v
        (record { once = v.unique; same = λ i e f. f }))
