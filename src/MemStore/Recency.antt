-- ===== src/MemStore/Recency.antt =====
-- src/data/memory/MemStore.cpp: the LRU order, through stores and reads.
use aegon.Base.{
  ℕ, suc, ◌+◌, ◌≤◌, ◌<◌, ◌≡◌, refl, ◌∙◌, false, Option, none, some, List, [], ◌∷◌, arith,
  if◌then◌else◌, length, All,
}
use aegon.Base.Bytes.{Bytes, bytes_eq, bytes_eq_refl, bytes_eq_iff}
use aegon.MemStore.{
  MemStore, Entry, find, unlink, back, pop_back, touch, drop_entry, do_set, do_get, set_found,
  get_found, new_entry, emplace, make_room, evict_lru, evict_back,
}
use aegon.MemStore.Counts.{count, count-pop_back}
use aegon.MemStore.Valid.{IsValid, make_room-max_entries}
use aegon.MemStore.Keeps.{do_set-IsValid, do_get-IsValid}
use aegon.MemStore.Lookup.{do_set-find, find-erase, evicts, is_back}

-- How many keys were used after `k`.
unfoldable pub rank : Bytes → List Bytes → ℕ
rank k [] = 0
rank k (j ∷ ks) = if bytes_eq j k then 0 else suc (rank k ks)

rank-unlink :
    (j k : Bytes) (ks : List Bytes) → bytes_eq j k ≡ false → rank k (unlink j ks) ≤ rank k ks
unfolding rank unlink
rank-unlink j k [] h = omega arith
rank-unlink j k (i ∷ ks) h =
    ground (arith, rank-unlink j k ks, bytes_eq_iff i j, bytes_eq_iff i k, bytes_eq_iff j k)

rank-pop_back : (k a : Bytes) (ks : List Bytes) → rank k (pop_back a ks) ≤ rank k (a ∷ ks)
unfolding rank pop_back
rank-pop_back k a [] = omega arith
rank-pop_back k a (b ∷ ks) = ground (arith, rank-pop_back k b ks)

-- A key with others behind it is not at the back.
not_back :
    (k a : Bytes) (ks : List Bytes)
    → rank k (a ∷ ks) < length ks
    → count k (a ∷ ks) ≤ 1
    → bytes_eq (back a ks) k ≡ false
unfolding rank back count
not_back k a [] h c = absurd (omega arith)
not_back k a (b ∷ ks) h c = ground (arith, not_back k b ks, count-pop_back k b ks)

module _ (k : Bytes) (e : Entry) where
  -- `k` is stored with `e`, and at most `r` keys were used since.
  pub record IsRecent (r : ℕ) (s : MemStore) : Type 0 where
    pub valid : IsValid s
    pub found : find k s.store ≡ some e
    pub recent : rank k s.lru_list ≤ r

  kept_list : (l : List Bytes) → count k l ≤ 1 → rank k l + 1 < length l → is_back k l ≡ false
  kept_list [] c h = refl
  kept_list (a ∷ ks) c h = not_back k a ks (omega arith) c

  not_evicted :
      (j : Bytes) (r : ℕ) (s : MemStore)
      → IsRecent r s
      → r + 1 < s.max_entries
      → evicts j k s ≡ false
  unfolding evicts
  not_evicted j r s p h =
      ground
        (arith, p.recent, p.valid.sizes, p.valid.unique k, p.valid.linked k, kept_list s.lru_list)

  evict_back-rank :
      (l : List Bytes) (s : MemStore) → s.lru_list ≡ l → rank k (evict_back l s).lru_list ≤ rank k l
  unfolding evict_back
  evict_back-rank [] s h = rw h (omega arith)
  evict_back-rank (a ∷ ks) s h = rank-pop_back k a ks

  make_room-rank : (s : MemStore) → rank k (make_room s).lru_list ≤ rank k s.lru_list
  unfolding make_room evict_lru
  make_room-rank s = ground (arith, evict_back-rank s.lru_list s refl)

  module _ (now : ℕ) (j : Bytes) (other : bytes_eq j k ≡ false) (s : MemStore) where
    set_found-rank :
        (d : Entry) (o : Option Entry)
        → (rank k (set_found j d o s).lru_list ≤ rank k s.lru_list + 1)
          × ((set_found j d o s).max_entries ≡ s.max_entries)
    unfolding set_found emplace touch rank
    set_found-rank d none = (rw other (omega (arith, make_room-rank s)), make_room-max_entries s)
    set_found-rank d (some d') = (rw other (omega (arith, rank-unlink j k s.lru_list other)), refl)

    get_found-rank :
        (o : Option Entry)
        → (rank k (get_found now j o s).1.lru_list ≤ rank k s.lru_list + 1)
          × ((get_found now j o s).1.max_entries ≡ s.max_entries)
    unfolding get_found touch drop_entry rank
    get_found-rank none = (omega arith, refl)
    get_found-rank (some d) = (ground (arith, rank-unlink j k s.lru_list other), ground arith)

    get_found-find :
        (o : Option Entry) → IsValid s → find k (get_found now j o s).1.store ≡ find k s.store
    unfolding get_found touch drop_entry
    get_found-find none v = refl
    get_found-find (some d) v = ground (arith, find-erase k j s.store (v.unique j), other)

-- A use of a key: it is stored, or read.
pub data Use : Type 0 where
  stores : ℕ → Bytes → Bytes → Option ℕ → Use
  reads : ℕ → Bytes → Use

abbrev pub used_key : Use → Bytes
used_key (stores now j x ttl) = j
used_key (reads now j) = j

abbrev pub apply_use : Use → MemStore → MemStore
apply_use (stores now j x ttl) s = do_set now j x ttl s
apply_use (reads now j) s = (do_get now j s).1

abbrev pub use_all : List Use → MemStore → MemStore
use_all [] s = s
use_all (u ∷ us) s = use_all us (apply_use u s)

module _ (k : Bytes) (e : Entry) where
  use-IsRecent :
      (u : Use) (r : ℕ) (s : MemStore)
      → bytes_eq (used_key u) k ≡ false
      → r + 1 < s.max_entries
      → IsRecent k e r s
      → IsRecent k e (r + 1) (apply_use u s) × ((apply_use u s).max_entries ≡ s.max_entries)
  use-IsRecent (stores now j x ttl) r s other room p = (
    record {
      valid = do_set-IsValid now j s p.valid x ttl;
      found = rw (do_set-find now j x ttl s p.valid k, other, not_evicted k e j r s p room) p.found;
      recent =
          unfold do_set in
          omega (
            arith,
            p.recent,
            (set_found-rank k e now j other s (new_entry now x ttl) (find j s.store)).0,
          );
    },
    unfold do_set in (set_found-rank k e now j other s (new_entry now x ttl) (find j s.store)).1,
  )
  use-IsRecent (reads now j) r s other room p = (
    record {
      valid = do_get-IsValid now j s p.valid;
      found =
          unfold do_get in (get_found-find k e now j other s (find j s.store) p.valid ∙ p.found);
      recent =
          unfold do_get in
          omega (arith, p.recent, (get_found-rank k e now j other s (find j s.store)).0);
    },
    unfold do_get in (get_found-rank k e now j other s (find j s.store)).1,
  )

  use_all-found :
      (us : List Use) (r : ℕ) (s : MemStore)
      → All (λ u. bytes_eq (used_key u) k ≡ false) us
      → r + length us < s.max_entries
      → IsRecent k e r s
      → find k (use_all us s).store ≡ some e
  use_all-found [] r s others room p = p.found
  use_all-found (u ∷ us) r s (other, others) room p =
      let (p', cap) = use-IsRecent u r s other (omega arith) p in
      use_all-found us (r + 1) (apply_use u s) others (omega (arith, cap)) p'

set_found-front :
    (k : Bytes) (e : Entry) (o : Option Entry) (s : MemStore)
    → rank k (set_found k e o s).lru_list ≡ 0
unfolding set_found emplace touch rank
set_found-front k e none s = rw (bytes_eq_refl k)
set_found-front k e (some d) s = rw (bytes_eq_refl k)

set_found-max_entries :
    (k : Bytes) (e : Entry) (o : Option Entry) (s : MemStore)
    → (set_found k e o s).max_entries ≡ s.max_entries
unfolding set_found emplace touch
set_found-max_entries k e none s = make_room-max_entries s
set_found-max_entries k e (some d) s = refl

do_set-max_entries :
    (now : ℕ) (k x : Bytes) (ttl : Option ℕ) (s : MemStore)
    → (do_set now k x ttl s).max_entries ≡ s.max_entries
unfolding do_set
do_set-max_entries now k x ttl s = set_found-max_entries k (new_entry now x ttl) (find k s.store) s

-- After a key was stored, and fewer than `max_entries` stores and reads of other keys, at whatever
-- times, the entry is still there as it was stored.
pub do_set_stays :
    (now : ℕ) (k x : Bytes) (ttl : Option ℕ) (s : MemStore) (us : List Use)
    → IsValid s
    → All (λ u. bytes_eq (used_key u) k ≡ false) us
    → length us < s.max_entries
    → find k (use_all us (do_set now k x ttl s)).store ≡ some (new_entry now x ttl)
do_set_stays now k x ttl s us v others room =
    let e = new_entry now x ttl in
    let t = do_set now k x ttl s in
    use_all-found k e us 0 t others (rw (do_set-max_entries now k x ttl s) (omega arith)) (record {
      valid = do_set-IsValid now k s v x ttl;
      found = rw (do_set-find now k x ttl s v k, bytes_eq_refl k);
      recent = unfold do_set in omega (arith, set_found-front k e (find k s.store) s);
    })
