-- ===== src/HeaderMap/Tests.antt =====
-- Runs of the header map and an instance of each theorem.
use aegon.Base.{◌≡◌, refl, none, some, List, [], ◌∷◌, ◌++◌, inr}
use aegon.Base.Bytes.{Bytes}
use aegon.HeaderMap.{
  HeaderMap, iequals, get, contains, set, remove, add, find_first, has_value, empty_map,
}
use aegon.HeaderMap.Flagged.{
  IsValid, Operation, add_header, set_header, remove_header, apply, apply_all, apply_all-IsValid,
  empty_map-IsValid,
}
use aegon.HeaderMap.Lookup.{get-find_first, get-add, get_after}

abbrev date_upper : Bytes
date_upper = b'D' ∷ b'A' ∷ b'T' ∷ b'E' ∷ []

abbrev date_lower : Bytes
date_lower = b'd' ∷ b'a' ∷ b't' ∷ b'e' ∷ []

abbrev host : Bytes
host = b'H' ∷ b'o' ∷ b's' ∷ b't' ∷ []

abbrev calls : List Operation
calls =
    add_header host (b'a' ∷ [])
    ∷ set_header date_lower (b'1' ∷ [])
    ∷ add_header host (b'b' ∷ [])
    ∷ remove_header (b'x' ∷ [])
    ∷ []

abbrev headers : HeaderMap
headers = apply_all calls empty_map

headers-IsValid : IsValid headers
headers-IsValid = apply_all-IsValid calls empty_map empty_map-IsValid

first_host : get host headers ≡ some (b'a' ∷ [])
unfolding apply_all apply get
first_host = refl

date_any_case : get date_upper headers ≡ some (b'1' ∷ [])
unfolding apply_all apply get
date_any_case = refl

apply_all_example : IsValid (apply_all calls empty_map)
apply_all_example = apply_all-IsValid calls empty_map empty_map-IsValid

get-find_first_example :
    get date_upper headers ≡ find_first date_upper (headers.inline_headers ++ headers.heap_headers)
get-find_first_example = get-find_first date_upper headers headers-IsValid

no_heap : headers.heap_headers ≡ []
unfolding apply_all apply
no_heap = refl

get-add_example : get host (add host (b'c' ∷ []) headers) ≡ some (b'a' ∷ [])
unfolding apply_all apply get
get-add_example = get-add host host (b'c' ∷ []) headers headers-IsValid (inr no_heap)

get_after_example :
    (get date_upper (set date_lower (b'c' ∷ []) headers) ≡ some (b'c' ∷ []))
    × (get date_upper (remove date_lower headers).1 ≡ none)
    × ((remove date_lower headers).0 ≡ contains date_lower headers)
    × (contains date_lower headers ≡ has_value (get date_lower headers))
unfolding iequals
get_after_example = get_after date_upper date_lower (b'c' ∷ []) headers headers-IsValid
