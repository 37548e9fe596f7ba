-- ===== src/Router/Match.antt =====
-- src/http/RadixTree.cpp: the search for the route of a path.
use Prim.Native.Nat.{bit_or}
use aegon.Base.{
  ℕ, ◌+◌, ◌^◌, Bool, true, false, ◌&&◌, ◌||◌, Option, none, some, List, [], ◌∷◌, ltb, ◌==◌,
  if◌then◌else◌, length, drop, get_or,
}
use aegon.Base.Bytes.{Bytes, bytes_eq}
use aegon.Simd.Find.{starts_with}
use aegon.Http1.Text.{Method, is_empty}
use aegon.Router.{
  Routes, Node, Nodes, node, nil, cons, static, param, wildcard, split_slash, normalize_path, index,
  is_wildcard,
}

-- StackRouteParams: the entries in use, the last one first.
abbrev pub Params : Type 0
Params = List (Bytes × Bytes)

unfoldable pub push_back : Bytes → Bytes → Params → Params
push_back k v ps = if ltb (length ps) 16 then (k, v) ∷ ps else ps

abbrev pub pop_back : Params → Params
pop_back [] = []
pop_back (p ∷ ps) = ps

abbrev pub push_named : Bytes → Bytes → Params → Params
push_named name v ps = if is_empty name then ps else push_back name v ps

-- The parameters are handed over in the order in which they were pushed.
abbrev pub in_order : Params → Params → Params
in_order [] done = done
in_order (p ∷ ps) done = in_order ps (p ∷ done)

-- The parameters as they are left, and the routes of the node that matched.
abbrev pub Outcome {ℓ} : Type ℓ → Type ℓ
Outcome Handler = Params × Option (Routes Handler)

pub data MatchResult {ℓ} (Handler : Type ℓ) : Type ℓ where
  found : Handler → Params → MatchResult Handler
  method_not_allowed : ℕ → MatchResult Handler
  not_found : MatchResult Handler

module _ {ℓ} {Handler : Type ℓ} where
  -- if (match_node(…)) return true;
  abbrev pub or_next : Outcome Handler → (Params → Outcome Handler) → Outcome Handler
  or_next (ps, some r) next = (ps, some r)
  or_next (ps, none) next = next ps

  -- Back from the children of a parameter.
  abbrev pub backtrack : Outcome Handler → Outcome Handler
  backtrack (ps, some r) = (ps, some r)
  backtrack (ps, none) = (pop_back ps, none)

  abbrev pub or_child : Option (Routes Handler) → Option (Routes Handler) → Option (Routes Handler)
  or_child (some r) o = some r
  or_child none o = o

  abbrev pub if_any : Routes Handler → Option (Routes Handler)
  if_any r = if r.has_any_handler then some r else none

  -- A child "/" with a handler, for a path that ends here.
  unfoldable pub slash_child : Nodes Handler → Option (Routes Handler)
  unfolding bytes_eq
  slash_child nil = none
  slash_child (cons (node static prefix name r cs) rest) =
      or_child (if bytes_eq prefix (b'/' ∷ []) then if_any r else none) (slash_child rest)
  slash_child (cons (node _ prefix name r cs) rest) = slash_child rest

  unfoldable pub ends_here : Bytes → Routes Handler → Nodes Handler → Option (Routes Handler)
  unfolding slash_child
  ends_here rest r cs = if is_empty rest then or_child (if_any r) (slash_child cs) else none

  -- The first byte is looked at before a static child is entered.
  unfoldable pub is_static_for : Bytes → Node Handler → Bool
  is_static_for path (node static prefix name r cs) =
      is_empty path || is_empty prefix || get_or prefix 0 0 == get_or path 0 0
  is_static_for path (node _ prefix name r cs) = false

  unfoldable pub is_param : Node Handler → Bool
  is_param (node param prefix name r cs) = true
  is_param (node _ prefix name r cs) = false

  abbrev pub any_node : Node Handler → Bool
  any_node n = true

  unfoldable pub match_wildcard : Bytes → Routes Handler → Bytes → Params → Outcome Handler
  unfolding push_back
  match_wildcard name r path ps =
      let ps' = push_named name path ps in
      if r.has_any_handler
      then (ps', some r)
      else (if is_empty name then ps' else pop_back ps', none)

  unfoldable mutual
    unfolding starts_with ends_here split_slash push_back bytes_eq is_static_for is_param
        is_wildcard match_wildcard

    pub match_node : Node Handler → Bytes → Params → Outcome Handler
    match_node (node static prefix name r cs) path ps =
        let rest = drop (length prefix) path in
        let deeper =
          or_next
            (or_next (match_children (is_static_for rest) cs rest ps)
              (match_children is_param cs rest))
            (match_children is_wildcard cs rest) in
        if starts_with prefix path
        then elim (ends_here rest r cs) [ some m ↦ (ps, some m) | none ↦ deeper ]
        else (ps, none)
    match_node (node param prefix name r cs) path ps =
        let (val, rest) = split_slash path in
        let ps' = push_back name val ps in
        let deeper = backtrack (match_children any_node cs rest ps') in
        if is_empty val
        then (ps, none)
        else if (is_empty rest || bytes_eq rest (b'/' ∷ [])) && r.has_any_handler
        then (ps', some r)
        else deeper
    match_node (node wildcard prefix name r cs) path ps = match_wildcard name r path ps

    -- A loop over the children that pass a test.
    pub match_children : (Node Handler → Bool) → Nodes Handler → Bytes → Params → Outcome Handler
    match_children test nil path ps = (ps, none)
    match_children test (cons c cs) path ps =
        let others = match_children test cs path in
        if test c then or_next (match_node c path ps) others else others ps

  -- 1U << i for each slot with a handler.
  unfoldable pub allowed_methods : ℕ → List (Option Handler) → ℕ
  allowed_methods i [] = 0
  allowed_methods i (none ∷ ss) = allowed_methods (i + 1) ss
  allowed_methods i (some h ∷ ss) = bit_or (2 ^ i) (allowed_methods (i + 1) ss)

  unfoldable pub finish_match : Method → Outcome Handler → MatchResult Handler
  unfolding allowed_methods
  finish_match m (ps, none) = not_found
  finish_match m (ps, some r) = elim (get_or r.slots (index m) none) [
    | some h ↦ found h (in_order ps [])
    | none ↦ method_not_allowed (allowed_methods 0 r.slots)
  ]

  unfoldable pub match_route : Method → Bytes → Node Handler → MatchResult Handler
  unfolding normalize_path match_node finish_match
  match_route m path root = finish_match m (match_node root (normalize_path path) [])
