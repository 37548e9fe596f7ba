-- ===== src/MemStore/Reads.antt =====
-- src/data/memory/MemStore.cpp: several reads in a row.
use aegon.Base.{
  ℕ, ◌≤◌, ◌≡◌, refl, sym, ap, ◌∙◌, Option, none, List, [], ◌∷◌, arith, if◌then◌else◌, not,
}
use aegon.Base.Bytes.{Bytes, bytes_eq}
use aegon.MemStore.{MemStore, find, do_get, do_del, sweep_expired}
use aegon.MemStore.Valid.{IsValid}
use aegon.MemStore.Keeps.{do_get-IsValid, sweep_expired-IsValid}
use aegon.MemStore.Lookup.{is_none, do_get-do_del, do_get-do_get}
use aegon.MemStore.Sweep.{do_get-sweep_expired}

-- A read's time and its key.
abbrev pub Read : Type 0
Read = ℕ × Bytes

-- What the reads return, one after the other.
unfoldable pub reads : List Read → MemStore → List (Option Bytes)
unfolding do_get
reads [] s = []
reads ((now, k) ∷ rs) s = (do_get now k s).0 ∷ reads rs (do_get now k s).1

-- What each would return as the first read of the store `s`.
unfoldable pub alone : List Read → MemStore → List (Option Bytes)
unfolding do_get
alone [] s = []
alone ((now, k) ∷ rs) s = (do_get now k s).0 ∷ alone rs s

-- The times do not fall, from `now` on.
abbrev pub Rising : ℕ → List Read → Type 0
Rising now [] = Unit
Rising now ((t, k) ∷ rs) = (now ≤ t) × Rising t rs

alone_same :
    (now : ℕ) (s s' : MemStore)
    → ((t : ℕ) (j : Bytes) → now ≤ t → (do_get t j s').0 ≡ (do_get t j s).0)
    → (t : ℕ) (rs : List Read) → now ≤ t
    → Rising t rs
    → alone rs s' ≡ alone rs s
unfolding alone
alone_same now s s' same t [] le r = refl
alone_same now s s' same t ((t', k) ∷ rs) le (le', r) =
    let later : now ≤ t' = omega (arith, le, le') in
    rw (same t' k later, alone_same now s s' same t' rs later r)

reads-alone :
    (now : ℕ) (rs : List Read) (s : MemStore) → IsValid s → Rising now rs → reads rs s ≡ alone rs s
unfolding reads alone
reads-alone now [] s v r = refl
reads-alone now ((t, k) ∷ rs) s v (le, r) =
    ap (λ xs. (do_get t k s).0 ∷ xs)
      (reads-alone t rs (do_get t k s).1 (do_get-IsValid t k s v) r
        ∙ alone_same t s (do_get t k s).1 (λ t' j. do_get-do_get k s v t t' j) t rs (omega arith) r)

-- After a sweep of a valid store, any number of reads at times that do not fall, with nothing else
-- between them and the sweep, return what they return without the sweep.
pub reads-sweep_expired :
    (now : ℕ) (rs : List Read) (s : MemStore)
    → IsValid s
    → Rising now rs
    → reads rs (sweep_expired now s) ≡ reads rs s
reads-sweep_expired now rs s v r =
    reads-alone now rs (sweep_expired now s) (sweep_expired-IsValid now s v) r
    ∙ (alone_same now s (sweep_expired now s) (λ t j. do_get-sweep_expired now t j s v) now rs
          (omega arith) r
        ∙ sym (reads-alone now rs s v r))

-- Of a valid store: right after a deletion a read of the key finds nothing and a read of any other
-- key what it would have found before, and the deletion returns whether the key was there. Any number
-- of reads at times that do not fall, with nothing else between them, each return what they would
-- return as the only one.
pub do_get_after :
    (k : Bytes) (s : MemStore)
    → IsValid s
    → (now : ℕ) (j : Bytes) (rs : List Read) → Rising now rs
    → ((do_get now j (do_del k s).1).0 ≡ (if bytes_eq k j then none else (do_get now j s).0))
      × ((do_del k s).0 ≡ not (is_none (find k s.store)))
      × (reads rs s ≡ alone rs s)
do_get_after k s valid now j rs r =
    let deleted = do_get-do_del k s valid now j in
    (deleted.0, deleted.1, reads-alone now rs s valid r)
