-- ===== src/Router/Static.antt =====
-- src/http/RadixTree.cpp: a pattern without parameters, in the tree.
use mathlib.Core.Path.{subst}
use aegon.Base.{
  ℕ, zero, suc, ◌≤◌, ◌<◌, ◌≡◌, refl, sym, ap, ◌∙◌, Bool, true, false, not, ◌&&◌, Option, none, some,
  List, [], ◌∷◌, ◌++◌, ltb, ◌==◌, ==_iff, take-append-drop, arith, length, length-drop, take, drop,
  get_or, Bool-cases, inl, inr,
}
use aegon.Base.Bytes.{Bytes}
use aegon.Simd.Find.{starts_with}
use aegon.Simd.Check.{all_bytes}
use aegon.Simd.Pieces.{all_bytes-drop}
use aegon.Http1.Text.{is_empty, find_where}
use aegon.Router.{
  Routes, Node, Nodes, node, nil, cons, static, param, wildcard, common_prefix_length,
  static_chunk_of, no_routes, set_slot, set_handler, on_first, shares_prefix, split_node,
  insert_static, insert_children, insert_at, enter, prefix_of, is_special,
}
use aegon.Router.Match.{
  Params, Outcome, or_next, ends_here, is_static_for, match_node, match_children,
}
use aegon.Router.Prefixed.{has_prefix, IsPrefixed, AllPrefixed, IsChild, split_node-IsChild}

abbrev pub is_plain_char : ℕ → Bool
is_plain_char c = not (is_special c)

starts_with-append : (p q : Bytes) → starts_with p (p ++ q) ≡ true
unfolding starts_with
starts_with-append [] q = refl
starts_with-append (x ∷ p) q = ground (arith, starts_with-append p q)

drop-append : (p q : Bytes) → drop (length p) (p ++ q) ≡ q
drop-append [] q = refl
drop-append (x ∷ p) q = drop-append p q

-- A text without special characters is its own chunk.
no_special : (cs : Bytes) → all_bytes is_plain_char cs ≡ true → find_where is_special cs ≡ none
unfolding all_bytes find_where
no_special [] h = refl
no_special (c ∷ cs) h = ground (arith, h, no_special cs)

static_chunk_of_plain : (cs : Bytes) → all_bytes is_plain_char cs ≡ true → static_chunk_of cs ≡ cs
unfolding static_chunk_of
static_chunk_of_plain cs h = ground (arith, no_special cs h)

-- The common prefix is a prefix of both.
take-common_prefix :
    (p q : Bytes) → take (common_prefix_length p q) p ≡ take (common_prefix_length p q) q
unfolding common_prefix_length
take-common_prefix [] q = refl
take-common_prefix (x ∷ p) [] = refl
take-common_prefix (x ∷ p) (y ∷ q) = elim (Bool-cases (x == y)) [
  | inl e ↦ rw e (
      ap (λ c. c ∷ take (common_prefix_length p q) p) ((==_iff x y).0 e)
      ∙ ap (λ cs. y ∷ cs) (take-common_prefix p q))
  | inr e ↦ rw e refl
]

common_prefix_le : (p q : Bytes) → common_prefix_length p q ≤ length q
unfolding common_prefix_length
common_prefix_le [] q = omega arith
common_prefix_le (x ∷ p) [] = omega arith
common_prefix_le (x ∷ p) (y ∷ q) = ground (arith, common_prefix_le p q)

common_prefix-first :
    (p q : Bytes)
    → ltb 0 (common_prefix_length p q)
      ≡ (not (is_empty p) && not (is_empty q) && get_or p 0 0 == get_or q 0 0)
unfolding common_prefix_length
common_prefix-first [] q = refl
common_prefix-first (x ∷ p) [] = refl
common_prefix-first (x ∷ p) (y ∷ q) = ground arith

take_all : (n : ℕ) (p : Bytes) → length p ≤ n → take n p ≡ p
take_all zero [] h = refl
take_all zero (x ∷ p) h = absurd (omega (arith, h))
take_all (suc n) [] h = refl
take_all (suc n) (x ∷ p) h = ap (λ q. x ∷ q) (take_all n p (omega (arith, h)))

plain_tests :
    (c : ℕ) (rest : Bytes)
    → all_bytes is_plain_char (c ∷ rest) ≡ true
    → ((c == b':') ≡ false) × ((c == b'*') ≡ false)
unfolding all_bytes
plain_tests c rest plain = ground (arith, plain)

module _ {ℓ} {Handler : Type ℓ} where
  get_or-set_slot :
      (i : ℕ) (h : Handler) (ss : List (Option Handler))
      → i < length ss
      → get_or (set_slot i h ss) i none ≡ some h
  unfolding set_slot
  get_or-set_slot i h [] k = absurd (omega (arith, k))
  get_or-set_slot zero h (s ∷ ss) k = refl
  get_or-set_slot (suc i) h (s ∷ ss) k = get_or-set_slot i h ss (omega (arith, k))

  -- The search ends at a node with the handler, and no parameter was pushed.
  abbrev pub Finds : ℕ → Handler → Params → Outcome Handler → Type ℓ
  Finds idx h ps o = (r : Routes Handler) × (o ≡ (ps, some r)) × (get_or r.slots idx none ≡ some h)

  -- What an insertion keeps of a static node.
  is_static_for-insert_at :
      (fuel idx : ℕ) (h : Handler) (remaining path : Bytes) (n : Node Handler)
      → is_static_for path (insert_at fuel idx h remaining n) ≡ is_static_for path n
  unfolding insert_at set_handler is_static_for
  is_static_for-insert_at zero idx h remaining path n = refl
  is_static_for-insert_at (suc fuel) idx h [] path (node static prefix name r cs) = ground arith
  is_static_for-insert_at (suc fuel) idx h [] path (node param prefix name r cs) = ground arith
  is_static_for-insert_at (suc fuel) idx h [] path (node wildcard prefix name r cs) = ground arith
  is_static_for-insert_at (suc fuel) idx h (c ∷ remaining) path (node static prefix name r cs) =
      refl
  is_static_for-insert_at (suc fuel) idx h (c ∷ remaining) path (node param prefix name r cs) = refl
  is_static_for-insert_at (suc fuel) idx h (c ∷ remaining) path (node wildcard prefix name r cs) =
      refl

  -- A child that shares its first character is the one entered, in the insertion and in the search.
  is_static_for-shares_prefix :
      (c : ℕ) (remaining : Bytes) (k : Node Handler)
      → has_prefix k ≡ true
      → is_static_for (c ∷ remaining) k ≡ shares_prefix (c ∷ remaining) k
  unfolding is_static_for shares_prefix
  is_static_for-shares_prefix c remaining (node static prefix name r cs) h =
      ground (arith, h, common_prefix-first prefix (c ∷ remaining))
  is_static_for-shares_prefix c remaining (node param prefix name r cs) h = refl
  is_static_for-shares_prefix c remaining (node wildcard prefix name r cs) h = refl

  match_node-children :
      (prefix name : Bytes) (r : Routes Handler) (cs : Nodes Handler) (c : ℕ) (rest : Bytes)
      (ps : Params) (r' : Routes Handler)
      → match_children (is_static_for (c ∷ rest)) cs (c ∷ rest) ps ≡ (ps, some r')
      → match_node (node static prefix name r cs) (prefix ++ (c ∷ rest)) ps ≡ (ps, some r')
  unfolding match_node ends_here
  match_node-children prefix name r cs c rest ps r' e =
      rw
        (
          starts_with-append prefix (c ∷ rest),
          drop-append prefix (c ∷ rest),
          drop-append prefix (c ∷ rest),
          e,
        )
        refl

  match_node-end :
      (prefix name : Bytes) (r : Routes Handler) (cs : Nodes Handler) (ps : Params)
      → r.has_any_handler ≡ true
      → match_node (node static prefix name r cs) (prefix ++ []) ps ≡ (ps, some r)
  unfolding match_node ends_here
  match_node-end prefix name r cs ps e =
      rw (starts_with-append prefix [], drop-append prefix [], e) refl

  pub set_handler-found :
      (idx : ℕ) (h : Handler) (prefix name : Bytes) (r : Routes Handler) (cs : Nodes Handler)
      (ps : Params)
      → idx < length r.slots
      → Finds idx h ps
          (match_node (set_handler idx h (node static prefix name r cs)) (prefix ++ []) ps)
  unfolding set_handler
  set_handler-found idx h prefix name r cs ps k =
      let r' : Routes Handler = record { slots = set_slot idx h r.slots; has_any_handler = true } in
      let e : ltb idx (length r.slots) ≡ true = ground (arith, k) in
      rw e (r', match_node-end prefix name r' cs ps refl, get_or-set_slot idx h r.slots k)

  split_node_shape :
      (cpl : ℕ) (prefix name : Bytes) (r : Routes Handler) (cs : Nodes Handler)
      → (r' : Routes Handler) × (cs' : Nodes Handler) × (split_node cpl
            (node static prefix name r cs)
          ≡ node static (take cpl prefix) name r' cs')
  unfolding split_node
  split_node_shape cpl prefix name r cs = elim (Bool-cases (ltb cpl (length prefix))) [
    | inl e ↦ (no_routes, cons (node static (drop cpl prefix) name r cs) nil, rw e refl)
    | inr e ↦ (r, cs, rw (e, take_all cpl prefix (ground (arith, e))) refl)
  ]

  Finds-or_next :
      (idx : ℕ) (h : Handler) (ps : Params) (o : Outcome Handler) (next : Params → Outcome Handler)
      → Finds idx h ps o
      → Finds idx h ps (or_next o next)
  Finds-or_next idx h ps o next (r, e, k) = (r, rw e refl, k)

  split_first :
      (c : ℕ) (rest : Bytes) (k : Node Handler)
      → shares_prefix (c ∷ rest) k ≡ true
      → is_static_for (c ∷ rest) (split_node (common_prefix_length (prefix_of k) (c ∷ rest)) k)
        ≡ true
  unfolding is_static_for shares_prefix split_node common_prefix_length
  split_first c rest (node static [] name r cs) e = absurd (ground (arith, e))
  split_first c rest (node static (x ∷ prefix) name r cs) e = elim (Bool-cases (x == c)) [
    | inl same ↦ rw same (ground (arith, same))
    | inr other ↦ absurd (ground (arith, e, other))
  ]
  split_first c rest (node param prefix name r cs) e = absurd (ground (arith, e))
  split_first c rest (node wildcard prefix name r cs) e = absurd (ground (arith, e))

  own_first :
      (c : ℕ) (rest name : Bytes) (r : Routes Handler) (cs : Nodes Handler)
      → is_static_for (c ∷ rest) (node static (c ∷ rest) name r cs) ≡ true
  unfolding is_static_for
  own_first c rest name r cs = ground arith

  -- The loop over the children: at one that passes the test and matches, and past one that does not.
  entered :
      (idx : ℕ) (h : Handler) (c : ℕ) (rest : Bytes) (ps : Params) (k : Node Handler)
      (ks : Nodes Handler)
      → is_static_for (c ∷ rest) k ≡ true
      → Finds idx h ps (match_node k (c ∷ rest) ps)
      → Finds idx h ps (match_children (is_static_for (c ∷ rest)) (cons k ks) (c ∷ rest) ps)
  unfolding match_children
  entered idx h c rest ps k ks test (r, e, slot) = (r, rw (test, e) refl, slot)

  passed_by :
      (idx : ℕ) (h : Handler) (c : ℕ) (rest : Bytes) (ps : Params) (k : Node Handler)
      (ks : Nodes Handler)
      → is_static_for (c ∷ rest) k ≡ false
      → Finds idx h ps (match_children (is_static_for (c ∷ rest)) ks (c ∷ rest) ps)
      → Finds idx h ps (match_children (is_static_for (c ∷ rest)) (cons k ks) (c ∷ rest) ps)
  unfolding match_children
  passed_by idx h c rest ps k ks test (r, e, slot) = (r, rw test e, slot)

  -- Insertions with `fuel`, and what is known of them.
  module _ (fuel idx : ℕ) (h : Handler) (valid : idx < 9)
      (go-Finds : (prefix name : Bytes) (r : Routes Handler) (cs : Nodes Handler) (rest : Bytes)
          (ps : Params)
        → IsPrefixed (node static prefix name r cs)
        → all_bytes is_plain_char rest ≡ true
        → length rest < fuel
        → Finds idx h ps (
            match_node
              (insert_at fuel idx h rest (node static prefix name r cs))
              (prefix ++ rest)
              ps)) where
    go-Finds-at :
        (n : ℕ) (prefix name : Bytes) (r : Routes Handler) (cs : Nodes Handler) (path : Bytes)
        (ps : Params)
        → prefix ≡ take n path
        → IsPrefixed (node static prefix name r cs)
        → all_bytes is_plain_char path ≡ true
        → length (drop n path) < fuel
        → Finds idx h ps
            (match_node (insert_at fuel idx h (drop n path) (node static prefix name r cs)) path ps)
    go-Finds-at n prefix name r cs path ps e good plain short =
        let whole : prefix ++ drop n path ≡ path =
          ap (λ p. p ++ drop n path) e ∙ take-append-drop n path in
        let there =
          go-Finds prefix name r cs (drop n path) ps good
            (all_bytes-drop is_plain_char n path plain) short in
        rw whole at there

    -- The child that is pushed where no child shares a character.
    new_child :
        (c : ℕ) (rest : Bytes) (ps : Params)
        → all_bytes is_plain_char (c ∷ rest) ≡ true
        → 0 < fuel
        → Finds idx h ps (
            match_node
              (insert_at fuel idx h
                (drop (length (c ∷ rest)) (c ∷ rest))
                (node static (c ∷ rest) [] no_routes nil))
              (c ∷ rest)
              ps)
    new_child c rest ps plain some_fuel =
        let n : ℕ = length (c ∷ rest) in
        go-Finds-at n (c ∷ rest) [] no_routes nil (c ∷ rest) ps
          (sym (take_all n (c ∷ rest) (omega arith))) (refl, tt) plain
          (omega (arith, some_fuel, length-drop n (c ∷ rest)))

    -- The child that shares a character, after it was split.
    shared_child :
        (path : Bytes) (k : Node Handler) (ps : Params)
        → shares_prefix path k ≡ true
        → IsChild k
        → all_bytes is_plain_char path ≡ true
        → length path ≤ fuel
        → Finds idx h ps (match_node (enter (insert_at fuel idx h) path path k) path ps)
    unfolding shares_prefix
    shared_child path (node static prefix name r cs) ps shared good plain short =
        let cpl : ℕ = common_prefix_length prefix path in
        let (r', cs', shape) = split_node_shape cpl prefix name r cs in
        let child = split_node-IsChild path (node static prefix name r cs) shared good in
        let inside = subst (λ k. IsPrefixed k) shape child.1 in
        let less : length (drop cpl path) < fuel =
          ground (arith, shared, short, length-drop cpl path, common_prefix_le prefix path) in
        rw shape (
          go-Finds-at cpl (take cpl prefix) name r' cs' path ps (take-common_prefix prefix path)
            inside plain less)
    shared_child path (node param prefix name r cs) ps shared good plain short =
        absurd (ground (arith, shared))
    shared_child path (node wildcard prefix name r cs) ps shared good plain short =
        absurd (ground (arith, shared))

    -- The search walks to the child that the insertion walked to.
    children-Finds :
        (c : ℕ) (rest : Bytes) (ps : Params)
        → all_bytes is_plain_char (c ∷ rest) ≡ true
        → length (c ∷ rest) ≤ fuel
        → (cs : Nodes Handler) → AllPrefixed cs
        → Finds idx h ps (
            match_children
              (is_static_for (c ∷ rest))
              (on_first
                (shares_prefix (c ∷ rest))
                (enter (insert_at fuel idx h) (c ∷ rest) (c ∷ rest))
                (insert_at fuel idx h
                  (drop (length (c ∷ rest)) (c ∷ rest))
                  (node static (c ∷ rest) [] no_routes nil))
                cs)
              (c ∷ rest)
              ps)
    unfolding on_first
    children-Finds c rest ps plain short nil good =
        entered idx h c rest ps
          (insert_at fuel idx h (drop (length (c ∷ rest)) (c ∷ rest))
            (node static (c ∷ rest) [] no_routes nil))
          nil
          (is_static_for-insert_at fuel idx h (drop (length (c ∷ rest)) (c ∷ rest)) (c ∷ rest)
              (node static (c ∷ rest) [] no_routes nil)
            ∙ own_first c rest [] no_routes nil)
          (new_child c rest ps plain (omega (arith, short)))
    children-Finds c rest ps plain short (cons k ks) (named, good, below) =
        elim (Bool-cases (shares_prefix (c ∷ rest) k)) [
          | inl e ↦ rw e (
              entered idx h c rest ps (enter (insert_at fuel idx h) (c ∷ rest) (c ∷ rest) k) ks
                (is_static_for-insert_at fuel idx h
                    (drop (common_prefix_length (prefix_of k) (c ∷ rest)) (c ∷ rest)) (c ∷ rest)
                    (split_node (common_prefix_length (prefix_of k) (c ∷ rest)) k)
                  ∙ split_first c rest k e)
                (shared_child (c ∷ rest) k ps e (named, good) plain short))
          | inr e ↦ rw e (
              passed_by idx h c rest ps k _ (is_static_for-shares_prefix c rest k named ∙ e)
                (children-Finds c rest ps plain short ks below))
        ]

  insert_children_plain :
      (go : Bytes → Node Handler → Node Handler) (c : ℕ) (rest : Bytes) (cs : Nodes Handler)
      → all_bytes is_plain_char (c ∷ rest) ≡ true
      → insert_children go (c ∷ rest) cs
        ≡ on_first
            (shares_prefix (c ∷ rest))
            (enter go (c ∷ rest) (c ∷ rest))
            (go (drop (length (c ∷ rest)) (c ∷ rest)) (node static (c ∷ rest) [] no_routes nil))
            cs
  unfolding insert_children insert_static
  insert_children_plain go c rest cs plain =
      let (no_param, no_wildcard) = plain_tests c rest plain in
      rw (no_param, no_wildcard, static_chunk_of_plain (c ∷ rest) plain) refl

  -- The node that the insertion ends at is the one that the search returns.
  pub insert_at-Finds :
      (fuel idx : ℕ) (h : Handler)
      → idx < 9
      → (prefix name : Bytes) (r : Routes Handler) (cs : Nodes Handler) (rest : Bytes) (ps : Params)
      → IsPrefixed (node static prefix name r cs)
      → all_bytes is_plain_char rest ≡ true
      → length rest < fuel
      → Finds idx h ps (
          match_node (insert_at fuel idx h rest (node static prefix name r cs)) (prefix ++ rest) ps)
  unfolding insert_at
  insert_at-Finds zero idx h valid prefix name r cs rest ps good plain short =
      absurd (omega (arith, short))
  insert_at-Finds (suc fuel) idx h valid prefix name r cs [] ps good plain short =
      set_handler-found idx h prefix name r cs ps (omega (arith, valid, good.0))
  insert_at-Finds (suc fuel) idx h valid prefix name r cs (c ∷ rest) ps good plain short =
      let (r', e, slot) =
        children-Finds fuel idx h valid (insert_at-Finds fuel idx h valid) c rest ps plain
          (omega (arith, short)) cs good.1 in
      let same = insert_children_plain (insert_at fuel idx h) c rest cs plain in
      (
        r',
        match_node-children prefix name r (insert_children (insert_at fuel idx h) (c ∷ rest) cs) c
            rest ps r' (rw same e),
        slot,
      )
