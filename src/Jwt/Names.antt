-- ===== src/Jwt/Names.antt =====
-- src/http/jwt/JwtAlgorithm.h: the name of an algorithm, both ways.
use aegon.Base.{
  ◌≡◌, ◌==◌, refl, ℕ, Bool, true, Option, some, [], ◌∷◌, arith, sym, ap, ◌∙◌, if_cases,
  if◌then◌else◌,
}
use aegon.Base.Bytes.{Bytes, eq_of_bytes_eq}
use aegon.Jwt.{
  Algorithm, hs256, hs384, hs512, rs256, rs384, rs512, ps256, ps384, ps512, es256, es384, es512,
  index, same_algorithm, algorithm_from_string, algorithm_to_string,
}

-- The algorithm that is found has the name.
record IsNamed (s : Bytes) (o : Option Algorithm) : Type 0 where
  pub name : (a : Algorithm) → o ≡ some a → s ≡ algorithm_to_string a

named :
    (s : Bytes) (a : Algorithm) (t : Bool) (o : Option Algorithm)
    → (t ≡ true → s ≡ algorithm_to_string a)
    → IsNamed s o
    → IsNamed s (if t then some a else o)
named s a t o h n =
    if_cases (IsNamed s) t (some a) o
      (λ e. record { name = λ b e'. h e ∙ ap algorithm_to_string (let same : a ≡ b = cc in same) })
      (λ e. n)

algorithm_from_string-IsNamed : (s : Bytes) → IsNamed s (algorithm_from_string s)
unfolding algorithm_from_string algorithm_to_string
algorithm_from_string-IsNamed s =
    named s hs256 _ _ (eq_of_bytes_eq s (b'H' ∷ b'S' ∷ b'2' ∷ b'5' ∷ b'6' ∷ [])) (
      named s hs384 _ _ (eq_of_bytes_eq s (b'H' ∷ b'S' ∷ b'3' ∷ b'8' ∷ b'4' ∷ [])) (
        named s hs512 _ _ (eq_of_bytes_eq s (b'H' ∷ b'S' ∷ b'5' ∷ b'1' ∷ b'2' ∷ [])) (
          named s rs256 _ _ (eq_of_bytes_eq s (b'R' ∷ b'S' ∷ b'2' ∷ b'5' ∷ b'6' ∷ [])) (
            named s rs384 _ _ (eq_of_bytes_eq s (b'R' ∷ b'S' ∷ b'3' ∷ b'8' ∷ b'4' ∷ [])) (
              named s rs512 _ _ (eq_of_bytes_eq s (b'R' ∷ b'S' ∷ b'5' ∷ b'1' ∷ b'2' ∷ [])) (
                named s ps256 _ _ (eq_of_bytes_eq s (b'P' ∷ b'S' ∷ b'2' ∷ b'5' ∷ b'6' ∷ [])) (
                  named s ps384 _ _ (eq_of_bytes_eq s (b'P' ∷ b'S' ∷ b'3' ∷ b'8' ∷ b'4' ∷ [])) (
                    named s ps512 _ _ (eq_of_bytes_eq s (b'P' ∷ b'S' ∷ b'5' ∷ b'1' ∷ b'2' ∷ [])) (
                      named s es256 _ _ (eq_of_bytes_eq s (b'E' ∷ b'S' ∷ b'2' ∷ b'5' ∷ b'6' ∷ [])) (
                        named s es384 _ _ (eq_of_bytes_eq s (b'E' ∷ b'S' ∷ b'3' ∷ b'8' ∷ b'4' ∷ []))
                          (named s es512 _ _
                            (eq_of_bytes_eq s (b'E' ∷ b'S' ∷ b'5' ∷ b'1' ∷ b'2' ∷ []))
                            (record { name = λ a e. cc }))))))))))))

abbrev of_index : ℕ → Algorithm
of_index n =
    if n == 0
    then hs256
    else if n == 1
    then hs384
    else if n == 2
    then hs512
    else if n == 3
    then rs256
    else if n == 4
    then rs384
    else if n == 5
    then rs512
    else if n == 6
    then ps256
    else if n == 7
    then ps384
    else if n == 8
    then ps512
    else if n == 9
    then es256
    else if n == 10
    then es384
    else es512

of_index-index : (a : Algorithm) → of_index (index a) ≡ a
of_index-index hs256 = refl
of_index-index hs384 = refl
of_index-index hs512 = refl
of_index-index rs256 = refl
of_index-index rs384 = refl
of_index-index rs512 = refl
of_index-index ps256 = refl
of_index-index ps384 = refl
of_index-index ps512 = refl
of_index-index es256 = refl
of_index-index es384 = refl
of_index-index es512 = refl

pub eq_of_same_algorithm : (a b : Algorithm) → same_algorithm a b ≡ true → a ≡ b
unfolding same_algorithm
eq_of_same_algorithm a b h =
    let same : index a ≡ index b = ground (arith, h) in
    sym (of_index-index a) ∙ (ap of_index same ∙ of_index-index b)

pub algorithm_from_string_lem :
    (s : Bytes) (a : Algorithm) → algorithm_from_string s ≡ some a → s ≡ algorithm_to_string a
algorithm_from_string_lem s a = (algorithm_from_string-IsNamed s).name a
