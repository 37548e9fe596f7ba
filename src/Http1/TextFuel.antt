-- ===== src/Http1/TextFuel.antt =====
-- src/http/v1/Http1Parser.h: the turns of the loops over a text.
use aegon.Base.{
  ℕ, zero, suc, ◌≤◌, ◌≡◌, refl, ap, ◌||◌, List, [], ◌∷◌, ◌==◌, arith, length, length-drop, take,
  drop, get_or, Option-cases, Bool-cases, inl, inr,
}
use aegon.Base.Bytes.{Bytes}
use aegon.Simd.Search.{index_of}
use aegon.Http1.Result.{Parsed, ◌>>◌}
use aegon.Http1.Text.{trim, find_where}
use aegon.Http1.Fields.{keep_token, coding_round, split_codings}
use aegon.Http1.Chunks.{extension_round, extensions, extension_name, extension_value}

-- `n` turns of a loop over a text, and then `below` in place of the turns that follow.
abbrev pub turns : {A : Type 0} → ((Bytes → A) → Bytes → A) → (Bytes → A) → ℕ → Bytes → A
turns round below zero = below
turns round below (suc n) = round (turns round below n)

same_coding_round :
    (next next' : Bytes → List Bytes) (c : ℕ) (cs : Bytes)
    → ((t : Bytes) → length t ≤ length cs → next t ≡ next' t)
    → coding_round next (c ∷ cs) ≡ coding_round next' (c ∷ cs)
same_coding_round next next' c cs step = elim (Option-cases (index_of (b',' ∷ []) 0 (c ∷ cs))) [
  | inl e ↦ rw (e, coding_round) refl
  | inr (i, e) ↦
      rw (e, coding_round)
        (ap (λ x. keep_token (trim (take i (c ∷ cs))) x)
          (step (drop i cs) (omega (arith, length-drop i cs))))
]

pub codings_end :
    (below : Bytes → List Bytes) (n : ℕ) (te : Bytes)
    → length te ≤ n
    → turns coding_round below (suc n) te ≡ split_codings n te
unfolding split_codings
codings_end below zero [] h = refl
codings_end below zero (c ∷ cs) h = absurd (omega (arith, h))
codings_end below (suc n) [] h = refl
codings_end below (suc n) (c ∷ cs) h =
    same_coding_round (turns coding_round below (suc n)) (split_codings n) c cs
      (λ t shorter. codings_end below n t (omega (arith, h, shorter)))

same_rest : {A : Type 0} (m : Parsed (Unit {0})) (a b : Parsed A) → a ≡ b → (m >> a) ≡ (m >> b)
same_rest m a b e = ap (λ x. m >> x) e

-- `f` and `g` stand for two amounts of fuel.
same_value :
    (next next' : Bytes → Parsed (Unit {0})) (v : Bytes)
    → ((n : ℕ) → next (drop n v) ≡ next' (drop n v))
    → extension_value next v ≡ extension_value next' v
same_value next next' v h = elim (Option-cases (index_of (b';' ∷ []) 0 v)) [
  | inl e ↦ rw (e, extension_value) refl
  | inr (j, e) ↦ rw (e, extension_value, h (suc j)) refl
]

same_extension_round :
    (next next' : Bytes → Parsed (Unit {0})) (c : ℕ) (cs : Bytes)
    → ((t : Bytes) → length t ≤ length cs → next t ≡ next' t)
    → extension_round next (c ∷ cs) ≡ extension_round next' (c ∷ cs)
same_extension_round next next' c cs step =
    elim (Option-cases (find_where (λ x. x == b';' || x == b'=') (c ∷ cs))) [
      | inl e ↦ rw (e, extension_round) refl
      | inr (i, e) ↦
          let rest = drop i cs in
          let same = step rest (omega (arith, length-drop i cs)) in
          let value =
            same_value next next' rest
              (λ n. step (drop n rest) (omega (arith, length-drop i cs, length-drop n rest))) in
          elim (Bool-cases (get_or (c ∷ cs) i 0 == b';')) [
            | inl semi ↦
                rw (e, extension_round, semi)
                  (same_rest (extension_name (take i (c ∷ cs))) _ _ same)
            | inr eq ↦
                rw (e, extension_round, eq) (same_rest (extension_name (take i (c ∷ cs))) _ _ value)
          ]
    ]

pub extensions_end :
    (below : Bytes → Parsed (Unit {0})) (n : ℕ) (ext : Bytes)
    → length ext ≤ n
    → turns extension_round below (suc n) ext ≡ extensions n ext
unfolding extensions
extensions_end below zero [] h = refl
extensions_end below zero (c ∷ cs) h = absurd (omega (arith, h))
extensions_end below (suc n) [] h = refl
extensions_end below (suc n) (c ∷ cs) h =
    same_extension_round (turns extension_round below (suc n)) (extensions n) c cs
      (λ t shorter. extensions_end below n t (omega (arith, h, shorter)))
