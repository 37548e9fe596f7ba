-- ===== src/Router/Prefixed.antt =====
-- src/http/RadixTree.cpp: the prefixes of the nodes, and their slots for the methods.
use aegon.Base.{
  ℕ, zero, suc, ◌+◌, ◌≡◌, refl, ◌∙◌, Bool, true, false, not, Option, List, [], ◌∷◌, ltb, ◌==◌,
  arith, length, take, drop, Bool-cases, Option-cases, inl, inr,
}
use aegon.Base.Bytes.{Bytes, bytes_eq}
use aegon.Http1.Text.{Method, is_empty, find_where}
use aegon.Router.{
  Node, Nodes, node, nil, cons, static, param, wildcard, common_prefix_length, split_slash,
  static_chunk_of, no_routes, set_slot, set_handler, on_first, is_param_named, is_wildcard,
  shares_prefix, split_node, insert_param, insert_wildcard, insert_static, insert_children,
  insert_at, insert, normalize_path, index, new_tree, enter, past_slash, prefix_of, is_special,
}

pub take_some :
    (n : ℕ) (p : Bytes) → is_empty p ≡ false → (n == 0) ≡ false → is_empty (take n p) ≡ false
take_some n [] h k = ground (arith, h)
take_some zero (c ∷ p) h k = ground (arith, k)
take_some (suc n) (c ∷ p) h k = refl

pub drop_some : (n : ℕ) (p : Bytes) → ltb n (length p) ≡ true → is_empty (drop n p) ≡ false
drop_some n [] h = ground (arith, h)
drop_some zero (c ∷ p) h = refl
drop_some (suc n) (c ∷ p) h = drop_some n p (ground (arith, h))

static_chunk_some :
    (c : ℕ) (remaining : Bytes)
    → is_special c ≡ false
    → is_empty (static_chunk_of (c ∷ remaining)) ≡ false
unfolding static_chunk_of find_where
static_chunk_some c remaining h = elim (Option-cases (find_where is_special remaining)) [
  | inl e ↦ ground (arith, h, e)
  | inr (k, e) ↦ ground (arith, h, e)
]

module _ {ℓ} {Handler : Type ℓ} where
  abbrev pub has_prefix : Node Handler → Bool
  has_prefix (node static prefix name r cs) = not (is_empty prefix)
  has_prefix (node _ prefix name r cs) = true

  abbrev mutual
    pub IsPrefixed : Node Handler → Type ℓ
    IsPrefixed (node ty prefix name r cs) = (length r.slots ≡ 9) × AllPrefixed cs

    pub AllPrefixed : Nodes Handler → Type ℓ
    AllPrefixed nil = Unit
    AllPrefixed (cons c cs) = (has_prefix c ≡ true) × IsPrefixed c × AllPrefixed cs

  -- A child of the tree.
  abbrev pub IsChild : Node Handler → Type ℓ
  IsChild c = (has_prefix c ≡ true) × IsPrefixed c

  length-set_slot :
      (i : ℕ) (h : Handler) (ss : List (Option Handler)) → length (set_slot i h ss) ≡ length ss
  unfolding set_slot
  length-set_slot i h [] = refl
  length-set_slot zero h (s ∷ ss) = refl
  length-set_slot (suc i) h (s ∷ ss) = omega (arith, length-set_slot i h ss)

  set_handler-IsPrefixed :
      (idx : ℕ) (h : Handler) (n : Node Handler) → IsPrefixed n → IsPrefixed (set_handler idx h n)
  unfolding set_handler
  set_handler-IsPrefixed idx h (node ty prefix name r cs) (slots, below) =
      elim (Bool-cases (ltb idx (length r.slots))) [
        | inl e ↦ rw e ((omega (arith, slots, length-set_slot idx h r.slots)), below)
        | inr e ↦ rw e (slots, below)
      ]

  on_first-AllPrefixed :
      (test : Node Handler → Bool) (f : Node Handler → Node Handler) (new : Node Handler)
      → IsChild new
      → ((c : Node Handler) → test c ≡ true → IsChild c → IsChild (f c))
      → (cs : Nodes Handler) → AllPrefixed cs
      → AllPrefixed (on_first test f new cs)
  unfolding on_first
  on_first-AllPrefixed test f new (a, b) keeps nil h = (a, b, tt)
  on_first-AllPrefixed test f new fresh keeps (cons c cs) (a, b, below) =
      elim (Bool-cases (test c)) [
        | inl e ↦ let (a', b') = keeps c e (a, b) in rw e (a', b', below)
        | inr e ↦ rw e (a, b, on_first-AllPrefixed test f new fresh keeps cs below)
      ]

  -- Splitting a static child leaves two nodes with a prefix.
  pub split_node-IsChild :
      (chunk : Bytes) (c : Node Handler)
      → shares_prefix chunk c ≡ true
      → IsChild c
      → IsChild (split_node (common_prefix_length (prefix_of c) chunk) c)
  unfolding split_node shares_prefix
  split_node-IsChild chunk (node static prefix name r cs) shared (named, (slots, below)) =
      let cpl : ℕ = common_prefix_length prefix chunk in
      let some_left : is_empty prefix ≡ false = ground (arith, named) in
      elim (Bool-cases (ltb cpl (length prefix))) [
        | inl e ↦
            let some_right = drop_some cpl prefix e in
            let some_first = take_some cpl prefix some_left (ground (arith, shared)) in
            rw e (rw some_first refl, (refl, (rw some_right refl, (slots, below), tt)))
        | inr e ↦ rw e (named, (slots, below))
      ]
  split_node-IsChild chunk (node param prefix name r cs) shared good =
      absurd (ground (arith, shared))
  split_node-IsChild chunk (node wildcard prefix name r cs) shared good =
      absurd (ground (arith, shared))

  module _ (go : Bytes → Node Handler → Node Handler)
      (keeps : (rest : Bytes) (c : Node Handler) → IsChild c → IsChild (go rest c)) where
    insert_param-AllPrefixed :
        (remaining : Bytes) (cs : Nodes Handler)
        → AllPrefixed cs
        → AllPrefixed (insert_param go remaining cs)
    unfolding insert_param
    insert_param-AllPrefixed remaining cs h =
        let name = (split_slash remaining).0 in
        let rest = (split_slash remaining).1 in
        on_first-AllPrefixed (is_param_named name) (go rest)
          (go rest (node param [] name no_routes nil))
          (keeps rest (node param [] name no_routes nil) (refl, (refl, tt)))
          (λ c e good. keeps rest c good) cs h

    insert_wildcard-AllPrefixed :
        (name : Bytes) (cs : Nodes Handler)
        → AllPrefixed cs
        → AllPrefixed (insert_wildcard go name cs)
    unfolding insert_wildcard
    insert_wildcard-AllPrefixed name cs h =
        on_first-AllPrefixed is_wildcard (go []) (go [] (node wildcard [] name no_routes nil))
          (keeps [] (node wildcard [] name no_routes nil) (refl, (refl, tt)))
          (λ c e good. keeps [] c good) cs h

    insert_static-AllPrefixed :
        (remaining : Bytes) (cs : Nodes Handler)
        → is_empty (static_chunk_of remaining) ≡ false
        → AllPrefixed cs
        → AllPrefixed (insert_static go remaining cs)
    unfolding insert_static
    insert_static-AllPrefixed remaining cs some_chunk h =
        let chunk = static_chunk_of remaining in
        let left = drop (length chunk) remaining in
        on_first-AllPrefixed (shares_prefix chunk) (enter go chunk remaining)
          (go left (node static chunk [] no_routes nil))
          (keeps left (node static chunk [] no_routes nil) (rw some_chunk refl, (refl, tt)))
          (λ c e good.
            keeps (drop (common_prefix_length (prefix_of c) chunk) remaining)
              (split_node (common_prefix_length (prefix_of c) chunk) c)
              (split_node-IsChild chunk c e good))
          cs h

    insert_children-AllPrefixed :
        (remaining : Bytes) (cs : Nodes Handler)
        → AllPrefixed cs
        → AllPrefixed (insert_children go remaining cs)
    unfolding insert_children
    insert_children-AllPrefixed [] cs h = h
    insert_children-AllPrefixed (c ∷ remaining) cs h = elim (Bool-cases (c == b':')) [
      | inl e ↦ rw e (insert_param-AllPrefixed remaining cs h)
      | inr e ↦ elim (Bool-cases (c == b'*')) [
        | inl e' ↦ rw (e, e') (insert_wildcard-AllPrefixed remaining cs h)
        | inr e' ↦
            rw (e, e')
              (insert_static-AllPrefixed (c ∷ remaining) cs
                (static_chunk_some c remaining (ground (arith, e, e'))) h)
      ]
    ]

  -- Neither the type nor the prefix of the node changes.
  insert_at-has_prefix :
      (fuel idx : ℕ) (h : Handler) (remaining : Bytes) (n : Node Handler)
      → has_prefix (insert_at fuel idx h remaining n) ≡ has_prefix n
  unfolding insert_at set_handler
  insert_at-has_prefix zero idx h remaining n = refl
  insert_at-has_prefix (suc fuel) idx h [] (node ty prefix name r cs) = ground arith
  insert_at-has_prefix (suc fuel) idx h (c ∷ remaining) (node static prefix name r cs) = refl
  insert_at-has_prefix (suc fuel) idx h (c ∷ remaining) (node param prefix name r cs) = refl
  insert_at-has_prefix (suc fuel) idx h (c ∷ remaining) (node wildcard prefix name r cs) = refl

  pub insert_at-IsPrefixed :
      (fuel idx : ℕ) (h : Handler) (remaining : Bytes) (n : Node Handler)
      → IsPrefixed n
      → IsPrefixed (insert_at fuel idx h remaining n)
  unfolding insert_at
  insert_at-IsPrefixed zero idx h remaining n good = good
  insert_at-IsPrefixed (suc fuel) idx h [] n good = set_handler-IsPrefixed idx h n good
  insert_at-IsPrefixed (suc fuel) idx h (c ∷ remaining) (node ty prefix name r cs) (slots, below) =
      (
        slots,
        insert_children-AllPrefixed (insert_at fuel idx h)
            (λ rest k good. (
              insert_at-has_prefix fuel idx h rest k ∙ good.0,
              insert_at-IsPrefixed fuel idx h rest k good.1,
            ))
            (c ∷ remaining) cs below,
      )

  -- Every tree that insertions build from the empty one has the invariant.
  pub insert-IsPrefixed :
      (method : Method) (pattern : Bytes) (h : Handler) (root : Node Handler)
      → IsPrefixed root
      → IsPrefixed (insert method pattern h root)
  unfolding insert
  insert-IsPrefixed method pattern h root good =
      elim (Bool-cases (bytes_eq (normalize_path pattern) (b'/' ∷ []))) [
        | inl e ↦ rw e (set_handler-IsPrefixed (index method) h root good)
        | inr e ↦
            let remaining = past_slash (normalize_path pattern) root in
            rw e (insert_at-IsPrefixed (length remaining + 1) (index method) h remaining root good)
      ]

pub new_tree-IsPrefixed {ℓ} : (Handler : Type ℓ) → IsPrefixed (new_tree {Handler = Handler})
new_tree-IsPrefixed Handler = (refl, tt)
