-- ===== src/Router.antt =====
-- src/http/RadixTree.h and RadixTree.cpp: the tree of routes and the insertion of a pattern. A handler
-- is a value of any type, and the vector of owned children is a list of nodes.
pub mod Match
pub mod Prefixed
pub mod Static
pub mod Found
pub mod Params
mod Tests
use aegon.Base.{
  ℕ, zero, suc, ◌+◌, ◌-◌, Bool, true, false, not, ◌&&◌, ◌||◌, Option, none, some, List, [], ◌∷◌,
  ltb, ◌==◌, if◌then◌else◌, length, take, drop,
}
use aegon.Base.Bytes.{Bytes, bytes_eq}
use aegon.Simd.Find.{starts_with}
use aegon.Simd.Search.{index_of}
use aegon.Http1.Text.{
  Method, get, post, put, delete, patch, head, options, connect, trace, unknown, is_empty,
  find_where,
}

pub data NodeType : Type 0 where
  static param wildcard : NodeType

module _ {ℓ} (Handler : Type ℓ) where
  -- `handlers` and `has_handler` as one array: a slot without a handler is `none`.
  pub record Routes : Type ℓ where
    pub slots : List (Option Handler)
    pub has_any_handler : Bool

  mutual
    pub data Node : Type ℓ where
      node : NodeType → Bytes → Bytes → Routes → Nodes → Node

    pub data Nodes : Type ℓ where
      nil : Nodes
      cons : Node → Nodes → Nodes

abbrev pub index : Method → ℕ
index get = 0
index post = 1
index put = 2
index delete = 3
index patch = 4
index head = 5
index options = 6
index connect = 7
index trace = 8
index unknown = 9

-- simd_common_prefix, by its scalar loop.
unfoldable pub common_prefix_length : Bytes → Bytes → ℕ
common_prefix_length (x ∷ xs) (y ∷ ys) =
    let rest = common_prefix_length xs ys in if x == y then suc rest else 0
common_prefix_length _ _ = 0

abbrev pub drop_last : Bytes → Bytes
drop_last [] = []
drop_last (c ∷ []) = []
drop_last (c ∷ d ∷ cs) = c ∷ drop_last (d ∷ cs)

abbrev pub ends_with : ℕ → Bytes → Bool
ends_with x [] = false
ends_with x (c ∷ []) = c == x
ends_with x (c ∷ d ∷ cs) = ends_with x (d ∷ cs)

unfoldable pub normalize_path : Bytes → Bytes
normalize_path p =
    if is_empty p
    then b'/' ∷ []
    else if ltb 1 (length p) && ends_with b'/' p
    then drop_last p
    else p

-- The text up to the first slash, and from there on.
unfoldable pub split_slash : Bytes → Bytes × Bytes
unfolding index_of
split_slash path = elim (index_of (b'/' ∷ []) 0 path) [
  | none ↦ (path, [])
  | some slash ↦ (take slash path, drop slash path)
]

abbrev pub is_special : ℕ → Bool
is_special c = c == b':' || c == b'*'

unfoldable pub static_chunk_of : Bytes → Bytes
unfolding find_where
static_chunk_of remaining = elim (find_where is_special remaining) [
  | none ↦ remaining
  | some next_special ↦ take next_special remaining
]

module _ {ℓ} {Handler : Type ℓ} where
  abbrev pub no_routes : Routes Handler
  no_routes = record {
    slots = none ∷ none ∷ none ∷ none ∷ none ∷ none ∷ none ∷ none ∷ none ∷ [];
    has_any_handler = false;
  }

  unfoldable pub set_slot : ℕ → Handler → List (Option Handler) → List (Option Handler)
  set_slot i h [] = []
  set_slot zero h (s ∷ ss) = some h ∷ ss
  set_slot (suc i) h (s ∷ ss) = s ∷ set_slot i h ss

  unfoldable pub set_handler : ℕ → Handler → Node Handler → Node Handler
  unfolding set_slot
  set_handler idx h (node ty prefix name r cs) =
      if ltb idx (length r.slots)
      then node ty prefix name (record { slots = set_slot idx h r.slots; has_any_handler = true })
          cs
      else node ty prefix name r cs

  -- Where the loop over the children stops, `f` goes on in that child; `new` is the child that is
  -- pushed where it finds none, with what follows done in it.
  unfoldable pub on_first :
      (Node Handler → Bool)
      → (Node Handler → Node Handler)
      → Node Handler
      → Nodes Handler
      → Nodes Handler
  on_first test f new nil = cons new nil
  on_first test f new (cons c cs) =
      let rest = on_first test f new cs in if test c then cons (f c) cs else cons c rest

  unfoldable pub is_param_named : Bytes → Node Handler → Bool
  unfolding bytes_eq
  is_param_named n (node param prefix name r cs) = bytes_eq name n
  is_param_named n (node _ prefix name r cs) = false

  unfoldable pub is_wildcard : Node Handler → Bool
  is_wildcard (node wildcard prefix name r cs) = true
  is_wildcard (node _ prefix name r cs) = false

  abbrev pub prefix_of : Node Handler → Bytes
  prefix_of (node ty prefix name r cs) = prefix

  unfoldable pub shares_prefix : Bytes → Node Handler → Bool
  unfolding common_prefix_length
  shares_prefix chunk (node static prefix name r cs) = ltb 0 (common_prefix_length prefix chunk)
  shares_prefix chunk (node _ prefix name r cs) = false

  -- The child keeps the first `cpl` characters, and a new node below it takes the rest with what the
  -- child had.
  unfoldable pub split_node : ℕ → Node Handler → Node Handler
  split_node cpl (node ty prefix name r cs) =
      if ltb cpl (length prefix)
      then node ty (take cpl prefix) name no_routes (cons (node ty (drop cpl prefix) name r cs) nil)
      else node ty prefix name r cs

  module _ (go : Bytes → Node Handler → Node Handler) where
    unfoldable pub insert_param : Bytes → Nodes Handler → Nodes Handler
    unfolding split_slash on_first is_param_named
    insert_param remaining cs =
        let (name, rest) = split_slash remaining in
        on_first (is_param_named name) (go rest) (go rest (node param [] name no_routes nil)) cs

    unfoldable pub insert_wildcard : Bytes → Nodes Handler → Nodes Handler
    unfolding on_first is_wildcard
    insert_wildcard name cs =
        on_first is_wildcard (go []) (go [] (node wildcard [] name no_routes nil)) cs

    abbrev pub enter : Bytes → Bytes → Node Handler → Node Handler
    enter chunk remaining c =
        let cpl : ℕ = common_prefix_length (prefix_of c) chunk in
        go (drop cpl remaining) (split_node cpl c)

    unfoldable pub insert_static : Bytes → Nodes Handler → Nodes Handler
    unfolding static_chunk_of on_first shares_prefix split_node common_prefix_length
    insert_static remaining cs =
        let chunk = static_chunk_of remaining in
        on_first (shares_prefix chunk) (enter chunk remaining)
          (go (drop (length chunk) remaining) (node static chunk [] no_routes nil)) cs

    -- One turn of the loop, by the first character of what remains.
    unfoldable pub insert_children : Bytes → Nodes Handler → Nodes Handler
    unfolding insert_param insert_wildcard insert_static
    insert_children [] cs = cs
    insert_children (c ∷ remaining) cs =
        let at_param = insert_param remaining cs in
        let at_wildcard = insert_wildcard remaining cs in
        let at_static = insert_static (c ∷ remaining) cs in
        if c == b':' then at_param else if c == b'*' then at_wildcard else at_static

  abbrev pub with_children : (Nodes Handler → Nodes Handler) → Node Handler → Node Handler
  with_children f (node ty prefix name r cs) = node ty prefix name r (f cs)

  -- while (!remaining.empty()), and the assignment behind it; a turn drops a character.
  unfoldable pub insert_at : ℕ → ℕ → Handler → Bytes → Node Handler → Node Handler
  unfolding set_handler insert_children
  insert_at zero idx h remaining n = n
  insert_at (suc fuel) idx h [] n = set_handler idx h n
  insert_at (suc fuel) idx h (c ∷ remaining) n =
      with_children (insert_children (insert_at fuel idx h) (c ∷ remaining)) n

  -- Past the leading slash, if the root is "/".
  abbrev pub past_slash : Bytes → Node Handler → Bytes
  past_slash pattern root =
      if starts_with (b'/' ∷ []) pattern && bytes_eq (prefix_of root) (b'/' ∷ [])
      then drop 1 pattern
      else pattern

  unfoldable pub insert : Method → Bytes → Handler → Node Handler → Node Handler
  unfolding normalize_path starts_with bytes_eq insert_at set_handler
  insert method pattern h root =
      let p = normalize_path pattern in
      let remaining = past_slash p root in
      if bytes_eq p (b'/' ∷ [])
      then set_handler (index method) h root
      else insert_at (length remaining + 1) (index method) h remaining root

  abbrev pub new_tree : Node Handler
  new_tree = node static (b'/' ∷ []) [] no_routes nil
