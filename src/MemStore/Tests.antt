-- ===== src/MemStore/Tests.antt =====
-- Runs of the store, and its theorems at a store of two entries that is full.
use aegon.Base.{◌+◌, ◌≡◌, refl, true, none, some, List, [], ◌∷◌, arith, if◌then◌else◌, not}
use aegon.Base.Bytes.{bytes_eq}
use aegon.Base.Decimal.{pos}
use aegon.MemStore.{
  MemStore, Entry, find, do_get, do_set, do_del, do_incr, sweep_expired, process, mget, is_expired,
  new_entry,
}
use aegon.MemStore.Counts.{count, entries}
use aegon.MemStore.Valid.{IsValid}
use aegon.MemStore.Keeps.{process-IsValid, do_set-IsValid}
use aegon.MemStore.Lookup.{evicts, is_none, do_get-do_set}
use aegon.MemStore.Reads.{Read, reads, alone, reads-sweep_expired, do_get_after}
use aegon.MemStore.Counter.{counter, incr_times, do_incr_counts}
use aegon.MemStore.Recency.{Use, stores, use_all, do_set_stays}

abbrev empty : MemStore
empty = record { max_entries = 2; store = []; lru_list = []; hits = 0; misses = 0 }

empty-IsValid : IsValid empty
unfolding count entries
empty-IsValid = record {
  linked = λ j. refl;
  unique = λ j. omega arith;
  sizes = refl;
  bounded = omega arith;
}

-- "a" holds "1" until time 30, then "b" holds "2" for ever.
abbrev two_keys : MemStore
two_keys =
    do_set 20 (b'b' ∷ []) (b'2' ∷ []) none (do_set 10 (b'a' ∷ []) (b'1' ∷ []) (some 20) empty)

two_keys-IsValid : IsValid two_keys
two_keys-IsValid =
    do_set-IsValid 20 (b'b' ∷ []) _
      (do_set-IsValid 10 (b'a' ∷ []) empty empty-IsValid (b'1' ∷ []) (some 20)) (b'2' ∷ []) none

process_example : IsValid (process (λ i. 25 + i) (mget ((b'a' ∷ []) ∷ (b'c' ∷ []) ∷ [])) two_keys).1
process_example =
    process-IsValid (λ i. 25 + i) (mget ((b'a' ∷ []) ∷ (b'c' ∷ []) ∷ [])) two_keys two_keys-IsValid

-- Setting "c" drops "a".
do_get-do_set_example :
    (do_get 25 (b'a' ∷ []) (do_set 21 (b'c' ∷ []) (b'3' ∷ []) none two_keys)).0
    ≡ (if evicts (b'c' ∷ []) (b'a' ∷ []) two_keys then none else (do_get 25 (b'a' ∷ []) two_keys).0)
unfolding bytes_eq
do_get-do_set_example =
    do_get-do_set 21 (b'c' ∷ []) (b'3' ∷ []) none two_keys two_keys-IsValid 25 (b'a' ∷ [])

dropped : evicts (b'c' ∷ []) (b'a' ∷ []) two_keys ≡ true
unfolding evicts find bytes_eq do_set aegon.MemStore.back
dropped = refl

abbrev three_reads : List Read
three_reads = (31, b'b' ∷ []) ∷ (35, b'a' ∷ []) ∷ (35, b'b' ∷ []) ∷ []

do_get_after_example :
    ((do_get 29 (b'a' ∷ []) (do_del (b'b' ∷ []) two_keys).1).0
      ≡ (if bytes_eq (b'b' ∷ []) (b'a' ∷ []) then none else (do_get 29 (b'a' ∷ []) two_keys).0))
    × ((do_del (b'b' ∷ []) two_keys).0 ≡ not (is_none (find (b'b' ∷ []) two_keys.store)))
    × (reads three_reads two_keys ≡ alone three_reads two_keys)
do_get_after_example =
    do_get_after (b'b' ∷ []) two_keys two_keys-IsValid 29 (b'a' ∷ []) three_reads (omega arith)

reads-sweep_example : reads three_reads (sweep_expired 30 two_keys) ≡ reads three_reads two_keys
reads-sweep_example = reads-sweep_expired 30 three_reads two_keys two_keys-IsValid (omega arith)

counts_example :
    ((incr_times (λ i. i) (b'n' ∷ []) 4 empty).0 ≡ pos 5)
    × (find (b'n' ∷ []) (incr_times (λ i. i) (b'n' ∷ []) 4 empty).1.store ≡ some (counter (pos 5)))
unfolding find
counts_example = do_incr_counts (λ i. i) (b'n' ∷ []) 4 empty empty-IsValid refl (omega arith)

abbrev one_use : List Use
one_use = stores 22 (b'd' ∷ []) (b'4' ∷ []) none ∷ []

stays_example :
    find (b'c' ∷ []) (use_all one_use (do_set 21 (b'c' ∷ []) (b'3' ∷ []) none two_keys)).store
    ≡ some (new_entry 21 (b'3' ∷ []) none)
unfolding bytes_eq do_set find aegon.MemStore.touch
stays_example =
    do_set_stays 21 (b'c' ∷ []) (b'3' ∷ []) none two_keys one_use two_keys-IsValid (refl, tt)
      (omega arith)
