-- ===== src/Router/Tests.antt =====
-- Runs of the router, and an instance of each theorem.
use aegon.Base.{ℕ, zero, suc, ◌≡◌, refl, none, List, [], ◌∷◌, arith}
use aegon.Base.Bytes.{Bytes}
use aegon.Simd.Check.{all_bytes}
use aegon.Http1.Text.{Method, get, post}
use aegon.Router.{Node, node, nil, param, no_routes, insert, new_tree, normalize_path}
use aegon.Router.Match.{Params, found, method_not_allowed, not_found, match_node, match_route}
use aegon.Router.Params.{match_node_restores}
use aegon.Router.Found.{insert_all, match_route-insert_all}

abbrev users : Bytes
users = (b'/' ∷ b'u' ∷ b's' ∷ b'e' ∷ b'r' ∷ b's' ∷ [])

abbrev user : Bytes
user = (b'/' ∷ b'u' ∷ b's' ∷ b'e' ∷ b'r' ∷ b's' ∷ b'/' ∷ b':' ∷ b'i' ∷ b'd' ∷ [])

abbrev files : Bytes
files = (b'/' ∷ b'u' ∷ b's' ∷ b'e' ∷ b'/' ∷ b'*' ∷ b'p' ∷ b'a' ∷ b't' ∷ b'h' ∷ [])

-- Handlers are numbers.
abbrev tree : Node ℕ
tree = insert get files 3 (insert get user 2 (insert get users 1 new_tree))

user_found :
    match_route get (b'/' ∷ b'u' ∷ b's' ∷ b'e' ∷ b'r' ∷ b's' ∷ b'/' ∷ b'7' ∷ []) tree
    ≡ found 2 (((b'i' ∷ b'd' ∷ []), (b'7' ∷ [])) ∷ [])
unfolding insert match_route
user_found = refl

file_found :
    match_route get (b'/' ∷ b'u' ∷ b's' ∷ b'e' ∷ b'/' ∷ b'a' ∷ b'/' ∷ b'b' ∷ []) tree
    ≡ found 3 (((b'p' ∷ b'a' ∷ b't' ∷ b'h' ∷ []), (b'a' ∷ b'/' ∷ b'b' ∷ [])) ∷ [])
unfolding insert match_route
file_found = refl

users_slash :
    match_route get (b'/' ∷ b'u' ∷ b's' ∷ b'e' ∷ b'r' ∷ b's' ∷ b'/' ∷ []) tree ≡ found 1 []
unfolding insert match_route
users_slash = refl

no_post : match_route post users tree ≡ method_not_allowed 1
unfolding insert match_route
no_post = refl

no_route : match_route get (b'/' ∷ b'o' ∷ b't' ∷ b'h' ∷ b'e' ∷ b'r' ∷ []) tree ≡ not_found
unfolding insert match_route
no_route = refl

-- A name that the first pattern gave stays.
other_name :
    match_route get
      (b'/' ∷ b'u' ∷ b's' ∷ b'e' ∷ b'/' ∷ b'a' ∷ [])
      (insert get (b'/' ∷ b'u' ∷ b's' ∷ b'e' ∷ b'/' ∷ b'*' ∷ b'r' ∷ b'e' ∷ b's' ∷ b't' ∷ []) 4 tree)
    ≡ found 4 (((b'p' ∷ b'a' ∷ b't' ∷ b'h' ∷ []), (b'a' ∷ [])) ∷ [])
unfolding insert match_route
other_name = refl

abbrev routes : List (Method × Bytes × ℕ)
routes = (get, files, 3) ∷ (get, user, 2) ∷ (get, users, 1) ∷ []

match_route-insert_all_example :
    match_route post
      (b'/' ∷ b'u' ∷ b's' ∷ b'e' ∷ b'/' ∷ [])
      (insert_all ((post, (b'/' ∷ b'u' ∷ b's' ∷ b'e' ∷ []), 5) ∷ routes))
    ≡ found 5 []
match_route-insert_all_example =
    match_route-insert_all routes post 5 (b'u' ∷ b's' ∷ b'e' ∷ [])
      (b'/' ∷ b'u' ∷ b's' ∷ b'e' ∷ b'/' ∷ []) refl (unfold all_bytes in refl)
      (unfold normalize_path in refl)

abbrev no_params : Params
no_params = []

match_node_restores_example : no_params ≡ no_params
unfolding insert match_node
match_node_restores_example =
    match_node_restores tree (b'/' ∷ b'o' ∷ b't' ∷ b'h' ∷ b'e' ∷ b'r' ∷ []) no_params no_params
      (omega arith) refl

abbrev repeated : ℕ → Params
repeated zero = []
repeated (suc n) = ((b'k' ∷ []), (b'v' ∷ [])) ∷ repeated n

-- A parameter that was not stored, since 16 are, takes another one with it where its children fail.
lost_parameter :
    match_node
      (node param [] (b'i' ∷ b'd' ∷ []) (no_routes {Handler = ℕ}) nil)
      (b'7' ∷ [])
      (repeated 16)
    ≡ (repeated 15, none)
unfolding match_node
lost_parameter = refl
