-- ===== src/MemStore.antt =====
-- src/data/memory/MemStore.h and MemStore.cpp: the state that the store's thread owns, and each
-- operation on it. An operation takes the clock reading `now` that it makes.
-- `unordered_map` is an association list, whose order no operation shows. An iterator into the LRU
-- list is the key that its node holds: no two nodes hold one key, which `IsValid` states.
pub mod Counts
pub mod Valid
pub mod Keeps
pub mod Lookup
pub mod Sweep
pub mod Reads
pub mod Recency
mod Tests
pub mod Counter
use aegon.Base.{
  ℕ, zero, suc, ◌+◌, Bool, true, false, Option, none, some, List, [], ◌∷◌, leb, if◌then◌else◌,
  length,
}
use aegon.Base.Bytes.{Bytes, bytes_eq}
use aegon.Base.Decimal.{ℤ, pos, negsuc, stoll, to_string_int}

pub record Entry : Type 0 where
  pub value : Bytes
  pub expires_at : Option ℕ

-- now >= *expires_at
unfoldable pub is_expired : ℕ → Entry → Bool
is_expired now e = elim e.expires_at [ none ↦ false | some t ↦ leb t now ]

abbrev pub Table : Type 0
Table = List (Bytes × Entry)

pub record MemStore : Type 0 where
  pub max_entries : ℕ
  pub store : Table
  pub lru_list : List Bytes
  pub hits : ℕ
  pub misses : ℕ

unfoldable pub find : Bytes → Table → Option Entry
find k [] = none
find k ((j, e) ∷ m) = if bytes_eq j k then some e else find k m

-- store_.erase(it)
unfoldable pub erase : Bytes → Table → Table
erase k [] = []
erase k ((j, e) ∷ m) = if bytes_eq j k then m else (j, e) ∷ erase k m

-- it->second.entry = entry
unfoldable pub assign : Bytes → Entry → Table → Table
assign k e [] = []
assign k e ((j, d) ∷ m) = if bytes_eq j k then (j, e) ∷ m else (j, d) ∷ assign k e m

-- lru_list_.erase(it->second.lru_it)
unfoldable pub unlink : Bytes → List Bytes → List Bytes
unlink k [] = []
unlink k (j ∷ ks) = if bytes_eq j k then ks else j ∷ unlink k ks

-- lru_list_.back() and lru_list_.pop_back(), of a list that starts with `k`.
unfoldable pub back : Bytes → List Bytes → Bytes
back k [] = k
back k (j ∷ ks) = back j ks

unfoldable pub pop_back : Bytes → List Bytes → List Bytes
pop_back k [] = []
pop_back k (j ∷ ks) = k ∷ pop_back j ks

unfoldable pub touch : Bytes → MemStore → MemStore
touch k s = record s { lru_list = k ∷ unlink k s.lru_list }

unfoldable pub drop_entry : Bytes → MemStore → MemStore
drop_entry k s = record s { store = erase k s.store; lru_list = unlink k s.lru_list }

evict_back : List Bytes → MemStore → MemStore
evict_back [] s = s
evict_back (k ∷ ks) s = record s { store = erase (back k ks) s.store; lru_list = pop_back k ks }

-- Erasing a key that is not there changes nothing, as the test on `find` does.
unfoldable pub evict_lru : MemStore → MemStore
unfolding evict_back
evict_lru s = evict_back s.lru_list s

-- if (store_.size() >= cfg_.max_entries) evict_lru();
unfoldable pub make_room : MemStore → MemStore
make_room s = if leb s.max_entries (length s.store) then evict_lru s else s

-- lru_list_.push_front(key); store_.emplace(key, entry)
unfoldable pub emplace : Bytes → Entry → MemStore → MemStore
emplace k e s = record s { store = (k, e) ∷ s.store; lru_list = k ∷ s.lru_list }

get_found : ℕ → Bytes → Option Entry → MemStore → Option Bytes × MemStore
get_found now k none s = (none, record s { misses = s.misses + 1 })
get_found now k (some e) s =
    if is_expired now e
    then (none, record (drop_entry k s) { misses = s.misses + 1 })
    else (some e.value, record (touch k s) { hits = s.hits + 1 })

unfoldable pub do_get : ℕ → Bytes → MemStore → Option Bytes × MemStore
unfolding get_found is_expired drop_entry touch
do_get now k s = get_found now k (find k s.store) s

abbrev pub new_entry : ℕ → Bytes → Option ℕ → Entry
new_entry now v ttl = record {
  value = v;
  expires_at = elim ttl [ none ↦ none | some t ↦ some (now + t) ];
}

set_found : Bytes → Entry → Option Entry → MemStore → MemStore
set_found k e none s = emplace k e (make_room s)
set_found k e (some _) s = record (touch k s) { store = assign k e s.store }

-- The source always returns true.
unfoldable pub do_set : ℕ → Bytes → Bytes → Option ℕ → MemStore → MemStore
unfolding set_found emplace make_room evict_lru touch
do_set now k v ttl s = set_found k (new_entry now v ttl) (find k s.store) s

del_found : Bytes → Option Entry → MemStore → Bool × MemStore
del_found k none s = (false, s)
del_found k (some _) s = (true, drop_entry k s)

unfoldable pub do_del : Bytes → MemStore → Bool × MemStore
unfolding del_found drop_entry
do_del k s = del_found k (find k s.store) s

-- ++val; past the largest int64_t the source's increment is undefined, and this one goes on.
abbrev pub increment : ℤ → ℤ
increment (pos n) = pos (n + 1)
increment (negsuc zero) = pos 0
increment (negsuc (suc n)) = negsuc n

-- std::stoll, with 0 for any exception
abbrev pub value_or_zero : Option ℤ → ℤ
value_or_zero none = pos 0
value_or_zero (some z) = z

-- Create or reset.
create_counter : Bytes → MemStore → ℤ × MemStore
create_counter k s =
    (pos 1, emplace k (record { value = to_string_int (pos 1); expires_at = none }) (make_room s))

incr_found : ℕ → Bytes → Option Entry → MemStore → ℤ × MemStore
unfolding create_counter
incr_found now k none s = create_counter k s
incr_found now k (some e) s =
    if is_expired now e
    then create_counter k (drop_entry k s)
    else (let val = increment (value_or_zero (stoll e.value)) in
        (
          val,
          touch k (record s { store = assign k (record e { value = to_string_int val }) s.store }),
        ))

unfoldable pub do_incr : ℕ → Bytes → MemStore → ℤ × MemStore
unfolding incr_found is_expired emplace make_room evict_lru touch drop_entry
do_incr now k s = incr_found now k (find k s.store) s

-- One step of the sweep's loop for each entry that it reaches.
sweep_entries : ℕ → Table → MemStore → MemStore
sweep_entries now [] s = s
sweep_entries now ((k, e) ∷ m) s =
    sweep_entries now m (if is_expired now e then drop_entry k s else s)

unfoldable pub sweep_expired : ℕ → MemStore → MemStore
unfolding sweep_entries is_expired drop_entry
sweep_expired now s = sweep_entries now s.store s

pub data MemRequest : Type 0 where
  get : Bytes → MemRequest
  mget : List Bytes → MemRequest
  set : Bytes → Bytes → Option ℕ → MemRequest
  del : Bytes → MemRequest
  del_many : List Bytes → MemRequest
  incr : Bytes → MemRequest

-- The result fields of a request, by the operation that writes them.
pub data Reply : Type 0 where
  str : Option Bytes → Reply
  mstr : List (Option Bytes) → Reply
  flag : Bool → Reply
  i64 : ℤ → Reply

-- The loop of MGet; `now i` is the i-th reading of the clock while the request is processed.
get_each : (ℕ → ℕ) → ℕ → List Bytes → MemStore → List (Option Bytes) × MemStore
get_each now i [] s = ([], s)
get_each now i (k ∷ ks) s =
    let (v, s') = do_get (now i) k s in let (vs, s'') = get_each now (i + 1) ks s' in (v ∷ vs, s'')

-- The loop of DelMany.
del_each : List Bytes → ℕ → MemStore → ℕ × MemStore
del_each [] n s = (n, s)
del_each (k ∷ ks) n s = let (found, s') = do_del k s in del_each ks (if found then n + 1 else n) s'

unfoldable pub process : (ℕ → ℕ) → MemRequest → MemStore → Reply × MemStore
unfolding get_each del_each
process now (get k) s = let (v, s') = do_get (now 0) k s in (str v, s')
process now (mget ks) s = let (vs, s') = get_each now 0 ks s in (mstr vs, s')
process now (set k v ttl) s = (flag true, do_set (now 0) k v ttl s)
process now (del k) s = let (b, s') = do_del k s in (flag b, s')
process now (del_many ks) s = let (n, s') = del_each ks 0 s in (i64 (pos n), s')
process now (incr k) s = let (z, s') = do_incr (now 0) k s in (i64 z, s')
