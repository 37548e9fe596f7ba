-- ===== src/Router/Found.antt =====
-- src/http/RadixTree.cpp: the routes without parameters.
use mathlib.Core.Path.{subst}
use aegon.Base.{
  ℕ, zero, suc, ◌+◌, ◌<◌, ◌≡◌, refl, ap, ◌∙◌, true, false, some, List, [], ◌∷◌, ltb, arith, length,
  Bool-cases, inl, inr,
}
use aegon.Base.Bytes.{Bytes, bytes_eq}
use aegon.Simd.Check.{all_bytes}
use aegon.Http1.Text.{
  Method, get, post, put, delete, patch, head, options, connect, trace, unknown, is_unknown,
}
use aegon.Router.{
  Routes, Node, Nodes, node, nil, static, new_tree, no_routes, set_slot, insert_children,
  past_slash, set_handler, insert_at, insert, normalize_path, index, drop_last, ends_with,
}
use aegon.Router.Match.{Outcome, match_node, match_route, found, finish_match}
use aegon.Router.Prefixed.{IsPrefixed, insert-IsPrefixed, new_tree-IsPrefixed}
use aegon.Router.Static.{is_plain_char, Finds, insert_at-Finds, set_handler-found}

index_lt : (m : Method) → is_unknown m ≡ false → index m < 9
index_lt get h = omega arith
index_lt post h = omega arith
index_lt put h = omega arith
index_lt delete h = omega arith
index_lt patch h = omega arith
index_lt head h = omega arith
index_lt options h = omega arith
index_lt connect h = omega arith
index_lt trace h = omega arith
index_lt unknown h = cc

drop_last_plain :
    (cs : Bytes) → all_bytes is_plain_char cs ≡ true → all_bytes is_plain_char (drop_last cs) ≡ true
unfolding all_bytes
drop_last_plain [] h = refl
drop_last_plain (c ∷ []) h = refl
drop_last_plain (c ∷ d ∷ cs) h = ground (arith, h, drop_last_plain (d ∷ cs))

-- A path from the root stays one, and gains no special character.
normalize_path_slash :
    (p : Bytes)
    → all_bytes is_plain_char p ≡ true
    → (q : Bytes) × (normalize_path (b'/' ∷ p) ≡ b'/' ∷ q) × (all_bytes is_plain_char q ≡ true)
unfolding normalize_path
normalize_path_slash [] h = ([], refl, h)
normalize_path_slash (c ∷ cs) h = elim (Bool-cases (ends_with b'/' (c ∷ cs))) [
  | inl e ↦ (drop_last (c ∷ cs), ground (arith, e), drop_last_plain (c ∷ cs) h)
  | inr e ↦ (c ∷ cs, ground (arith, e), h)
]

module _ {ℓ} {Handler : Type ℓ} (m : Method) (h : Handler) (name : Bytes) (r : Routes Handler)
    (cs : Nodes Handler) where
  abbrev root : Node Handler
  root = node static (b'/' ∷ []) name r cs

  insert-here :
      (pattern : Bytes)
      → normalize_path pattern ≡ b'/' ∷ []
      → insert m pattern h root ≡ set_handler (index m) h root
  unfolding insert
  insert-here pattern e = rw (e, insert) refl

  insert-below :
      (pattern : Bytes) (c : ℕ) (q : Bytes)
      → normalize_path pattern ≡ b'/' ∷ c ∷ q
      → insert m pattern h root ≡ insert_at (length (c ∷ q) + 1) (index m) h (c ∷ q) root
  unfolding insert
  insert-below pattern c q e = rw (e, insert) refl

  insert-Finds :
      (pattern q : Bytes)
      → index m < 9
      → IsPrefixed root
      → normalize_path pattern ≡ b'/' ∷ q
      → all_bytes is_plain_char q ≡ true
      → Finds (index m) h [] (match_node (insert m pattern h root) (b'/' ∷ q) [])
  insert-Finds pattern [] valid good e plain =
      rw (insert-here pattern e)
        (set_handler-found (index m) h (b'/' ∷ []) name r cs [] (omega (arith, valid, good.0)))
  insert-Finds pattern (c ∷ q) valid good e plain = rw (insert-below pattern c q e) (
      insert_at-Finds (length (c ∷ q) + 1) (index m) h valid (b'/' ∷ []) name r cs (c ∷ q) [] good
        plain (omega arith))

  finish_match-found :
      (o : Outcome Handler) → Finds (index m) h [] o → finish_match m o ≡ found h []
  unfolding finish_match
  finish_match-found o (routes, e, slot) =
      let last : finish_match m ([], some routes) ≡ found h [] = ground (arith, slot) in
      ap (finish_match m) e ∙ last

  match_route-insert :
      (p path : Bytes)
      → is_unknown m ≡ false
      → IsPrefixed (node static (b'/' ∷ []) name r cs)
      → all_bytes is_plain_char p ≡ true
      → normalize_path path ≡ normalize_path (b'/' ∷ p)
      → match_route m path (insert m (b'/' ∷ p) h (node static (b'/' ∷ []) name r cs)) ≡ found h []
  unfolding match_route
  match_route-insert p path known good plain same =
      let (q, e, plain_q) = normalize_path_slash p plain in
      let there = insert-Finds (b'/' ∷ p) q (index_lt m known) good e plain_q in
      let walk : normalize_path path ≡ b'/' ∷ q = same ∙ e in
      rw (walk, match_route)
        (finish_match-found
          (match_node (insert m (b'/' ∷ p) h (node static (b'/' ∷ []) name r cs)) (b'/' ∷ q) [])
          there)

module _ {ℓ} {Handler : Type ℓ} where
  -- Registrations, the first one last.
  abbrev pub insert_all : List (Method × Bytes × Handler) → Node Handler
  insert_all [] = new_tree
  insert_all ((m, pattern, h) ∷ routes) = insert m pattern h (insert_all routes)

  -- The root of such a tree, and the invariant.
  abbrev IsRoot : Node Handler → Type ℓ
  IsRoot n =
      (name : Bytes) × (r : Routes Handler) × (cs : Nodes Handler) × (n
        ≡ node static (b'/' ∷ []) name r cs)
      × IsPrefixed (node static (b'/' ∷ []) name r cs)

  set_handler_shape :
      (idx : ℕ) (h : Handler) (prefix name : Bytes) (r : Routes Handler) (cs : Nodes Handler)
      → (r' : Routes Handler) × (set_handler idx h (node static prefix name r cs)
          ≡ node static prefix name r' cs)
  unfolding set_handler
  set_handler_shape idx h prefix name r cs = elim (Bool-cases (ltb idx (length r.slots))) [
    | inl e ↦ (record { slots = set_slot idx h r.slots; has_any_handler = true }, rw e refl)
    | inr e ↦ (r, rw e refl)
  ]

  insert_at_shape :
      (fuel idx : ℕ) (h : Handler) (rest prefix name : Bytes) (r : Routes Handler)
      (cs : Nodes Handler)
      → (r' : Routes Handler) × (cs' : Nodes Handler) × (insert_at fuel idx h rest
            (node static prefix name r cs)
          ≡ node static prefix name r' cs')
  unfolding insert_at
  insert_at_shape zero idx h rest prefix name r cs = (r, cs, refl)
  insert_at_shape (suc fuel) idx h [] prefix name r cs =
      let (r', e) = set_handler_shape idx h prefix name r cs in (r', cs, e)
  insert_at_shape (suc fuel) idx h (c ∷ rest) prefix name r cs =
      (r, insert_children (insert_at fuel idx h) (c ∷ rest) cs, refl)

  insert_shape :
      (m : Method) (pattern : Bytes) (h : Handler) (name : Bytes) (r : Routes Handler)
      (cs : Nodes Handler)
      → (r' : Routes Handler) × (cs' : Nodes Handler) × (insert m pattern h
            (node static (b'/' ∷ []) name r cs)
          ≡ node static (b'/' ∷ []) name r' cs')
  unfolding insert
  insert_shape m pattern h name r cs =
      elim (Bool-cases (bytes_eq (normalize_path pattern) (b'/' ∷ []))) [
        | inl e ↦
            let (r', shape) = set_handler_shape (index m) h (b'/' ∷ []) name r cs in
            (r', cs, rw e shape)
        | inr e ↦
            let rest = past_slash (normalize_path pattern) (node static (b'/' ∷ []) name r cs) in
            let (r', cs', shape) =
              insert_at_shape (length rest + 1) (index m) h rest (b'/' ∷ []) name r cs in
            (r', cs', rw e shape)
      ]

  insert_all-IsRoot : (routes : List (Method × Bytes × Handler)) → IsRoot (insert_all routes)
  insert_all-IsRoot [] = ([], no_routes, nil, refl, new_tree-IsPrefixed Handler)
  insert_all-IsRoot ((m, pattern, h) ∷ routes) =
      let (name, r, cs, e, good) = insert_all-IsRoot routes in
      let (r', cs', shape) = insert_shape m pattern h name r cs in
      let kept = insert-IsPrefixed m pattern h (node static (b'/' ∷ []) name r cs) good in
      (name, r', cs', ap (insert m pattern h) e ∙ shape, subst (λ n. IsPrefixed n) shape kept)

  -- Whatever was registered before, a pattern from the root without ':' and '*' that was inserted
  -- last for a method is found for it, without parameters, by every path that is the same but for a
  -- slash at the end.
  pub match_route-insert_all :
      (routes : List (Method × Bytes × Handler)) (m : Method) (h : Handler) (p path : Bytes)
      → is_unknown m ≡ false
      → all_bytes is_plain_char p ≡ true
      → normalize_path path ≡ normalize_path (b'/' ∷ p)
      → match_route m path (insert_all ((m, b'/' ∷ p, h) ∷ routes)) ≡ found h []
  match_route-insert_all routes m h p path known plain same =
      let (name, r, cs, e, good) = insert_all-IsRoot routes in
      ap (λ n. match_route m path (insert m (b'/' ∷ p) h n)) e
      ∙ match_route-insert m h name r cs p path known good plain same
