-- ===== src/Router/Params.antt =====
-- src/http/RadixTree.cpp: the parameters that a search leaves behind.
use aegon.Base.{
  ℕ, suc, ◌+◌, ◌≤◌, ◌≡◌, refl, sym, ap, ◌∙◌, Bool, ◌&&◌, ◌||◌, none, some, [], ◌∷◌, arith, length,
  drop, Bool-cases, Option-cases, inl, inr,
}
use Prim.Native.Nat.{max}
use aegon.Base.Bytes.{Bytes, bytes_eq}
use aegon.Simd.Find.{starts_with}
use aegon.Http1.Text.{is_empty}
use aegon.Router.{
  is_wildcard, Routes, Node, Nodes, node, nil, cons, static, param, wildcard, split_slash,
}
use aegon.Router.Match.{
  Params, Outcome, push_back, pop_back, or_next, backtrack, any_node, ends_here, is_static_for,
  is_param, match_wildcard, match_node, match_children,
}

pop_back-push_back :
    (k v : Bytes) (ps : Params) → suc (length ps) ≤ 16 → pop_back (push_back k v ps) ≡ ps
unfolding push_back
pop_back-push_back k v ps h = ground (arith, h)

length-push_back : (k v : Bytes) (ps : Params) → length (push_back k v ps) ≤ suc (length ps)
unfolding push_back
length-push_back k v ps = ground arith

module _ {ℓ} {Handler : Type ℓ} where
  -- How many parameters and wildcards stand below each other.
  abbrev mutual
    pub height : Node Handler → ℕ
    height (node static prefix name r cs) = height_all cs
    height (node param prefix name r cs) = suc (height_all cs)
    height (node wildcard prefix name r cs) = 1

    pub height_all : Nodes Handler → ℕ
    height_all nil = 0
    height_all (cons c cs) = max (height c) (height_all cs)

  -- A failure leaves the parameters as they were.
  abbrev pub Restores : Params → Outcome Handler → Type ℓ
  Restores ps o = o.1 ≡ none → o.0 ≡ ps

  or_next-Restores :
      (ps : Params) (o : Outcome Handler) (next : Params → Outcome Handler)
      → Restores ps o
      → Restores ps (next ps)
      → Restores ps (or_next o next)
  or_next-Restores ps (ps', some r) next h k e = absurd (ground (arith, e))
  or_next-Restores ps (ps', none) next h k e =
      let same : ps' ≡ ps = h refl in
      ap (λ q. (next q).0) same ∙ k (ap (λ q. (next q).1) (sym same) ∙ e)

  static-Restores :
      (prefix name : Bytes) (r : Routes Handler) (cs : Nodes Handler) (path : Bytes) (ps : Params)
      → Restores ps (
          match_children
            (is_static_for (drop (length prefix) path))
            cs
            (drop (length prefix) path)
            ps)
      → Restores ps (match_children is_param cs (drop (length prefix) path) ps)
      → Restores ps (match_children is_wildcard cs (drop (length prefix) path) ps)
      → Restores ps (match_node (node static prefix name r cs) path ps)
  unfolding match_node
  static-Restores prefix name r cs path ps a b c =
      let rest = drop (length prefix) path in
      let statics = match_children (is_static_for rest) cs rest ps in
      elim (Bool-cases (starts_with prefix path)) [
        | inr e ↦ rw e (λ k. refl)
        | inl e ↦ elim (Option-cases (ends_here rest r cs)) [
          | inr (m, e') ↦ rw (e, e') (λ k. absurd (ground (arith, k)))
          | inl e' ↦
              rw (e, e')
                (or_next-Restores ps (or_next statics (match_children is_param cs rest))
                  (match_children is_wildcard cs rest)
                  (or_next-Restores ps statics (match_children is_param cs rest) a b) c)
        ]
      ]

  backtrack-Restores :
      (ps ps' : Params) (o : Outcome Handler)
      → pop_back ps' ≡ ps
      → Restores ps' o
      → Restores ps (backtrack o)
  backtrack-Restores ps ps' (q, some r) h k e = absurd (ground (arith, e))
  backtrack-Restores ps ps' (q, none) h k e = ap pop_back (k refl) ∙ h

  param-Restores :
      (prefix name : Bytes) (r : Routes Handler) (cs : Nodes Handler) (path : Bytes) (ps : Params)
      → suc (length ps) ≤ 16
      → Restores
          (push_back name (split_slash path).0 ps)
          (match_children any_node cs (split_slash path).1 (push_back name (split_slash path).0 ps))
      → Restores ps (match_node (node param prefix name r cs) path ps)
  unfolding match_node
  param-Restores prefix name r cs path ps h k =
      let val = (split_slash path).0 in
      let rest = (split_slash path).1 in
      let ps' = push_back name val ps in
      elim (Bool-cases (is_empty val)) [
        | inl e ↦ rw e (λ _. refl)
        | inr e ↦
            elim (Bool-cases ((is_empty rest || bytes_eq rest (b'/' ∷ [])) && r.has_any_handler)) [
              | inl e' ↦ rw (e, e') (λ x. absurd (ground (arith, x)))
              | inr e' ↦
                  rw (e, e')
                    (backtrack-Restores ps ps' (match_children any_node cs rest ps')
                      (pop_back-push_back name val ps h) k)
            ]
      ]

  wildcard-Restores :
      (name : Bytes) (r : Routes Handler) (path : Bytes) (ps : Params)
      → suc (length ps) ≤ 16
      → Restores ps (match_wildcard name r path ps)
  unfolding match_wildcard
  wildcard-Restores name r path ps h e = ground (arith, e, pop_back-push_back name path ps h)

  mutual
    unfolding match_node match_children

    match_node-Restores :
        (n : Node Handler) (path : Bytes) (ps : Params)
        → length ps + height n ≤ 16
        → Restores ps (match_node n path ps)
    match_node-Restores (node static prefix name r cs) path ps h =
        static-Restores prefix name r cs path ps
          (match_children-Restores (is_static_for (drop (length prefix) path)) cs
            (drop (length prefix) path) ps h)
          (match_children-Restores is_param cs (drop (length prefix) path) ps h)
          (match_children-Restores is_wildcard cs (drop (length prefix) path) ps h)
    match_node-Restores (node param prefix name r cs) path ps h =
        let (val, rest) = split_slash path in
        param-Restores prefix name r cs path ps (omega (arith, h)) (
          match_children-Restores any_node cs rest (push_back name val ps)
            (omega (arith, h, length-push_back name val ps)))
    match_node-Restores (node wildcard prefix name r cs) path ps h =
        wildcard-Restores name r path ps (omega (arith, h))

    match_children-Restores :
        (test : Node Handler → Bool) (cs : Nodes Handler) (path : Bytes) (ps : Params)
        → length ps + height_all cs ≤ 16
        → Restores ps (match_children test cs path ps)
    match_children-Restores test nil path ps h = λ e. refl
    match_children-Restores test (cons c cs) path ps h = elim (Bool-cases (test c)) [
      | inl t ↦ rw t (
          or_next-Restores ps (match_node c path ps) (match_children test cs path)
            (match_node-Restores c path ps (omega (arith, h)))
            (match_children-Restores test cs path ps (omega (arith, h))))
      | inr t ↦ rw t (match_children-Restores test cs path ps (omega (arith, h)))
    ]

-- A search that finds nothing leaves the parameters as they were, where those that it starts with
-- and the parameters and wildcards that stand below each other in the tree are 16 at most.
pub match_node_restores {ℓ} :
    {Handler : Type ℓ} (n : Node Handler) (path : Bytes) (ps ps' : Params)
    → length ps + height n ≤ 16
    → match_node n path ps ≡ (ps', none)
    → ps' ≡ ps
match_node_restores n path ps ps' h e =
    ap (λ o. o.0) (sym e) ∙ match_node-Restores n path ps h (ap (λ o. o.1) e)
