-- ===== src/MemStore/Counts.antt =====
-- src/data/memory/MemStore.cpp: how often a key stands in the table and in the LRU list.
use aegon.Base.{
  ℕ, ◌+◌, ◌-◌, ◌≤◌, ◌≡◌, refl, Bool, none, some, List, [], ◌∷◌, arith, if◌then◌else◌, length, min,
}
use aegon.Base.Bytes.{Bytes, bytes_eq, bytes_eq_iff}
use aegon.MemStore.{Entry, Table, find, erase, assign, unlink, back, pop_back}

abbrev pub one_if : Bool → ℕ
one_if b = if b then 1 else 0

unfoldable pub count : Bytes → List Bytes → ℕ
count j [] = 0
count j (k ∷ ks) = one_if (bytes_eq k j) + count j ks

unfoldable pub entries : Bytes → Table → ℕ
entries j [] = 0
entries j ((k, e) ∷ m) = one_if (bytes_eq k j) + entries j m

module _ (j k : Bytes) where
  pub count-unlink : (ks : List Bytes) → count j (unlink k ks) ≡ count j ks - one_if (bytes_eq k j)
  unfolding count unlink
  count-unlink [] = ground arith
  count-unlink (i ∷ ks) =
      ground (arith, count-unlink ks, bytes_eq_iff i k, bytes_eq_iff i j, bytes_eq_iff k j)

  pub entries-erase : (m : Table) → entries j (erase k m) ≡ entries j m - one_if (bytes_eq k j)
  unfolding entries erase
  entries-erase [] = ground arith
  entries-erase ((i, d) ∷ m) =
      ground (arith, entries-erase m, bytes_eq_iff i k, bytes_eq_iff i j, bytes_eq_iff k j)

  pub entries-assign : (e : Entry) (m : Table) → entries j (assign k e m) ≡ entries j m
  unfolding entries assign
  entries-assign e [] = refl
  entries-assign e ((i, d) ∷ m) = ground (arith, entries-assign e m)

pub count-pop_back :
    (j k : Bytes) (ks : List Bytes)
    → count j (pop_back k ks) + one_if (bytes_eq (back k ks) j) ≡ count j (k ∷ ks)
unfolding count pop_back back
count-pop_back j k [] = omega arith
count-pop_back j k (i ∷ ks) = omega (arith, count-pop_back j i ks)

pub length-pop_back : (k : Bytes) (ks : List Bytes) → length (pop_back k ks) + 1 ≡ length (k ∷ ks)
unfolding pop_back
length-pop_back k [] = omega arith
length-pop_back k (i ∷ ks) = omega (arith, length-pop_back i ks)

module _ (k : Bytes) where
  pub length-erase : (m : Table) → length (erase k m) + min 1 (entries k m) ≡ length m
  unfolding entries erase
  length-erase [] = omega arith
  length-erase ((i, d) ∷ m) = ground (arith, length-erase m)

  pub length-unlink : (ks : List Bytes) → length (unlink k ks) + min 1 (count k ks) ≡ length ks
  unfolding count unlink
  length-unlink [] = omega arith
  length-unlink (i ∷ ks) = ground (arith, length-unlink ks)

  pub length-assign : (e : Entry) (m : Table) → length (assign k e m) ≡ length m
  unfolding assign
  length-assign e [] = refl
  length-assign e ((i, d) ∷ m) = ground (arith, length-assign e m)

  pub find-none : (m : Table) → find k m ≡ none → entries k m ≡ 0
  unfolding find entries
  find-none [] h = refl
  find-none ((i, d) ∷ m) h = ground (arith, find-none m)

  pub find-some : (m : Table) (e : Entry) → find k m ≡ some e → 1 ≤ entries k m
  unfolding find entries
  find-some [] e h = cc
  find-some ((i, d) ∷ m) e h = ground (arith, find-some m e)

  pub find-eq-none : (m : Table) → entries k m ≡ 0 → find k m ≡ none
  unfolding find entries
  find-eq-none [] h = refl
  find-eq-none ((i, d) ∷ m) h = ground (arith, find-eq-none m)
