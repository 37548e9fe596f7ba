-- ===== src/HeaderMap/Entries.antt =====
-- What the loops of src/http/HeaderMap.h do to one list of headers.
use aegon.Base.{
  ◌≡◌, refl, Bool, true, false, not, ◌&&◌, ◌||◌, none, some, List, [], ◌∷◌, ◌++◌, arith, length,
  ◌≤◌, Bool-cases, ◌⊎◌, inl, inr, if◌then◌else◌,
}
use aegon.Base.Bytes.{Bytes}
use aegon.HeaderMap.{
  HeaderEntry, iequals, assign_first, remove_each, find_first, or_else, has_value,
}
use aegon.HeaderMap.Names.{iequals_sym, iequals_left}

-- Whether a header of a name is in a list.
unfoldable pub occurs : Bytes → List HeaderEntry → Bool
occurs n [] = false
occurs n (h ∷ hs) = iequals h.name n || occurs n hs

pub occurs-append :
    (n : Bytes) (xs ys : List HeaderEntry) → occurs n (xs ++ ys) ≡ (occurs n xs || occurs n ys)
unfolding occurs
occurs-append n [] ys = refl
occurs-append n (h ∷ xs) ys = ground (arith, occurs-append n xs ys)

pub find_first-append :
    (n : Bytes) (xs ys : List HeaderEntry)
    → find_first n (xs ++ ys) ≡ or_else (find_first n xs) (find_first n ys)
unfolding find_first
find_first-append n [] ys = refl
find_first-append n (h ∷ xs) ys = ground (arith, find_first-append n xs ys)

pub has_value-find_first :
    (n : Bytes) (hs : List HeaderEntry) → has_value (find_first n hs) ≡ occurs n hs
unfolding find_first occurs
has_value-find_first n [] = refl
has_value-find_first n (h ∷ hs) = ground (arith, has_value-find_first n hs)

-- A list after its first header of name `n` was given the value `v`.
pub record Assigned (n v : Bytes) (hs hs' : List HeaderEntry) : Type 0 where
  pub same_names : (j : Bytes) → occurs j hs' ≡ occurs j hs
  pub same_length : length hs' ≡ length hs
  pub was_there : occurs n hs ≡ true
  pub reads : (j : Bytes) → find_first j hs' ≡ (if iequals n j then some v else find_first j hs)

module _ (n v : Bytes) (h : HeaderEntry) (hs : List HeaderEntry) where
  assign_here : iequals h.name n ≡ true → Assigned n v (h ∷ hs) (record h { value = v } ∷ hs)
  unfolding occurs find_first
  assign_here e = record {
    same_names = λ j. refl;
    same_length = refl;
    was_there = ground arith;
    reads = λ j. ground (arith, iequals_left h.name n j e);
  }

  assign_there :
      (hs' : List HeaderEntry)
      → iequals h.name n ≡ false
      → Assigned n v hs hs'
      → Assigned n v (h ∷ hs) (h ∷ hs')
  unfolding occurs find_first
  assign_there hs' e a = record {
    same_names = λ j. ground (arith, a.same_names j);
    same_length = omega (arith, a.same_length);
    was_there = ground (arith, a.was_there);
    reads = λ j. ground (arith, a.reads j, iequals_left h.name j n, iequals_sym n j);
  }

-- `assign_first` finds no header of the name, or assigns to the first.
pub assign_first_lem :
    (n v : Bytes) (hs : List HeaderEntry)
    → ((assign_first n v hs ≡ none) × (occurs n hs ≡ false))
      ⊎ ((hs' : List HeaderEntry) × (assign_first n v hs ≡ some hs') × Assigned n v hs hs')
unfolding assign_first occurs
assign_first_lem n v [] = inl (refl, refl)
assign_first_lem n v (h ∷ hs) = elim (Bool-cases (iequals h.name n)) [
  | inl e ↦ inr (record h { value = v } ∷ hs, ground arith, assign_here n v h hs e)
  | inr e ↦ elim (assign_first_lem n v hs) [
    | inl (a, b) ↦ inl (ground arith, ground arith)
    | inr (hs', a, b) ↦ inr (h ∷ hs', ground arith, assign_there n v h hs hs' e b)
  ]
]

module _ (n : Bytes) where
  pub removed-occurs : (hs : List HeaderEntry) → (remove_each n hs).0 ≡ occurs n hs
  unfolding remove_each occurs
  removed-occurs [] = refl
  removed-occurs (h ∷ hs) = ground (arith, removed-occurs hs)

  pub occurs-remove_each :
      (j : Bytes) (hs : List HeaderEntry)
      → occurs j (remove_each n hs).1 ≡ (occurs j hs && not (iequals n j))
  unfolding remove_each occurs
  occurs-remove_each j [] = refl
  occurs-remove_each j (h ∷ hs) = ground (
    arith,
    occurs-remove_each j hs,
    iequals_left h.name n j,
    iequals_left h.name j n,
    iequals_sym n j,
  )

  pub find_first-remove_each :
      (j : Bytes) (hs : List HeaderEntry)
      → find_first j (remove_each n hs).1 ≡ (if iequals n j then none else find_first j hs)
  unfolding remove_each find_first
  find_first-remove_each j [] = ground arith
  find_first-remove_each j (h ∷ hs) = ground (
    arith,
    find_first-remove_each j hs,
    iequals_left h.name n j,
    iequals_left h.name j n,
    iequals_sym n j,
  )

  pub length-remove_each : (hs : List HeaderEntry) → length (remove_each n hs).1 ≤ length hs
  unfolding remove_each
  length-remove_each [] = omega arith
  length-remove_each (h ∷ hs) = ground (arith, length-remove_each hs)

  pub occurs-remove_each_none :
      (j : Bytes) (hs : List HeaderEntry)
      → occurs n hs ≡ false
      → occurs j (remove_each n hs).1 ≡ occurs j hs
  unfolding remove_each occurs
  occurs-remove_each_none j [] e = refl
  occurs-remove_each_none j (h ∷ hs) e = ground (arith, occurs-remove_each_none j hs)

-- Names that are equal without case occur in the same lists.
pub occurs_same :
    (a b : Bytes) (hs : List HeaderEntry) → iequals a b ≡ true → occurs a hs ≡ occurs b hs
unfolding occurs
occurs_same a b [] e = refl
occurs_same a b (h ∷ hs) e = ground (
  arith,
  occurs_same a b hs e,
  iequals_left a b h.name,
  iequals_sym h.name a,
  iequals_sym h.name b,
)
