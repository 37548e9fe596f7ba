-- ===== src/HeaderMap/Names.antt =====
-- src/http/HeaderMap.h: the comparison of names without case.
use aegon.Base.{◌≡◌, refl, true, [], ◌∷◌, arith, length, map, ◌==◌, ◌↔◌}
use aegon.Base.Bytes.{Bytes, bytes_eq, bytes_eq_iff}
use aegon.HeaderMap.{iequals, to_lower, is_named}

-- Two names are equal without case exactly where their lower-case forms are the same bytes.
pub iequals-bytes_eq : (a b : Bytes) → iequals a b ≡ bytes_eq (map to_lower a) (map to_lower b)
unfolding iequals bytes_eq
iequals-bytes_eq [] [] = refl
iequals-bytes_eq [] (y ∷ ys) = refl
iequals-bytes_eq (x ∷ xs) [] = refl
iequals-bytes_eq (x ∷ xs) (y ∷ ys) = rw (iequals-bytes_eq xs ys)

pub iequals_iff : (a b : Bytes) → (iequals a b ≡ true) ↔ (map to_lower a ≡ map to_lower b)
iequals_iff a b = rw (iequals-bytes_eq a b) (bytes_eq_iff (map to_lower a) (map to_lower b))

pub iequals_refl : (a : Bytes) → iequals a a ≡ true
iequals_refl a = (iequals_iff a a).1 refl

pub iequals_sym : (a b : Bytes) → iequals a b ≡ iequals b a
iequals_sym a b = ground (arith, iequals_iff a b, iequals_iff b a)

-- Names that are equal without case are equal to the same names.
pub iequals_left : (a b c : Bytes) → iequals a b ≡ true → iequals a c ≡ iequals b c
iequals_left a b c h = ground (arith, h, iequals_iff a b, iequals_iff a c, iequals_iff b c)

pub length-iequals : (a b : Bytes) → iequals a b ≡ true → (length a == length b) ≡ true
unfolding iequals
length-iequals [] [] h = refl
length-iequals [] (y ∷ ys) h = ground arith
length-iequals (x ∷ xs) [] h = ground arith
length-iequals (x ∷ xs) (y ∷ ys) h = ground (arith, length-iequals xs ys)

-- The length test in front of a comparison never changes its result.
pub is_named-iequals : (key name : Bytes) → is_named key name ≡ iequals name key
unfolding is_named
is_named-iequals key name = ground (arith, length-iequals name key)
