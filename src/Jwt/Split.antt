-- ===== src/Jwt/Split.antt =====
-- src/http/jwt/JwtVerifier.h: the three texts of a token.
use mathlib.Core.Path.{subst}
use aegon.Base.{
  ℕ, suc, ◌+◌, ◌-◌, ◌≡◌, ap, sym, ◌∙◌, not, ◌||◌, some, [], ◌∷◌, ◌++◌, leb, ◌==◌, length, take,
  drop, drop-drop, take_add, take-append-drop, Bool-cases, inl, inr, arith,
}
use aegon.Base.Bytes.{Bytes}
use aegon.Simd.Find.{starts_with}
use aegon.Simd.Search.{index_of}
use aegon.Jwt.{value, require_some-value, require-value, value-injective, malformed_token}
use aegon.Jwt.Verify.{Parts, split_token}

-- A byte that was found stands where it was found.
index_of-drop :
    (c i j : ℕ) (xs : Bytes)
    → index_of (c ∷ []) i xs ≡ some j
    → (k : ℕ) × (j ≡ i + k) × (drop k xs ≡ c ∷ drop (suc k) xs)
unfolding index_of starts_with
index_of-drop c i j [] e = absurd (ground (arith, e))
index_of-drop c i j (x ∷ xs) e = elim (Bool-cases (x == c)) [
  | inl t ↦
      let same : x ≡ c = ground (arith, t) in
      let at : j ≡ i = ground (arith, e, t) in (0, omega (arith, at), ap (λ d. d ∷ xs) same)
  | inr t ↦
      let more : index_of (c ∷ []) (i + 1) xs ≡ some j = ground (arith, e, t) in
      let (k, e', at) = index_of-drop c (i + 1) j xs more in (suc k, omega (arith, e'), at)
]

found_dot :
    (k : ℕ) (xs : Bytes) → index_of (b'.' ∷ []) 0 xs ≡ some k → drop k xs ≡ b'.' ∷ drop (k + 1) xs
found_dot k xs e =
    let (k', same, at) = index_of-drop b'.' 0 k xs e in
    let e' : k' ≡ k = omega (arith, same) in
    let next : suc k' ≡ k + 1 = omega (arith, same) in
    ap (λ n. drop n xs) (sym e') ∙ (at ∙ ap (λ n. b'.' ∷ drop n xs) next)

-- The three texts and the dots between them, of which the first two are signed.
pub record IsSplit (token : Bytes) (p : Parts) : Type 0 where
  pub whole : token ≡ p.signing_input ++ (b'.' ∷ p.sig_b64)
  pub signed : p.signing_input ≡ p.header_b64 ++ (b'.' ∷ p.payload_b64)

module _ (token : Bytes) (first k : ℕ) where
  abbrev pub second : ℕ
  second = first + 1 + k

  abbrev parts_at : Parts
  parts_at = record {
    header_b64 = take first token;
    payload_b64 = take (second - first - 1) (drop (first + 1) token);
    sig_b64 = drop (second + 1) token;
    signing_input = take second token;
  }

  parts_at-IsSplit :
      index_of (b'.' ∷ []) 0 token ≡ some first
      → index_of (b'.' ∷ []) 0 (drop (first + 1) token) ≡ some k
      → IsSplit token parts_at
  parts_at-IsSplit e e' =
      let rest = drop (first + 1) token in
      let dot = found_dot first token e in
      let dot' = found_dot k rest e' in
      let sum : second ≡ first + suc k = omega arith in
      let width : second - first - 1 ≡ k = omega arith in
      let past : first + 1 + (k + 1) ≡ second + 1 = omega arith in
      record {
        whole =
            sym (take-append-drop second token)
            ∙ ap (λ ys. take second token ++ ys)
                (sym (drop-drop (first + 1) k token)
                  ∙ (dot'
                      ∙ ap (λ ys. b'.' ∷ ys)
                          (drop-drop (first + 1) (k + 1) token ∙ ap (λ n. drop n token) past)));
        signed =
            ap (λ n. take n token) sum
            ∙ (take_add first (suc k) token
                ∙ ap (λ ys. take first token ++ ys)
                    (ap (λ ys. take (suc k) ys) dot ∙ ap (λ n. b'.' ∷ take n rest) (sym width)));
      }

pub split_token-IsSplit :
    (token : Bytes) (p : Parts) → split_token token ≡ value p → IsSplit token p
unfolding split_token
split_token-IsSplit token p e =
    let (first, found, e1) = require_some-value (index_of (b'.' ∷ []) 0 token) _ _ p e in
    let (nonzero, e2) = require-value (not (first == 0)) _ _ p e1 in
    let (k, found', e3) =
      require_some-value (index_of (b'.' ∷ []) 0 (drop (first + 1) token)) _ _ p e2 in
    let (bounds, e4) =
      require-value
        (not
          (leb (second token first k) (first + 1) || leb (length token) (second token first k + 1)))
        malformed_token (value (parts_at token first k)) p e3 in
    let same : parts_at token first k ≡ p = value-injective (parts_at token first k) p e4 in
    subst (IsSplit token) same (parts_at-IsSplit token first k found found')
