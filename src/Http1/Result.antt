-- ===== src/Http1/Result.antt =====
-- src/http/v1/Http1Parser.h: how the parser's steps end.
use aegon.Base.{Bool, true, false, Option, none, some, ◌≡◌, refl, ◌⊎◌, inl, inr}

-- ParseStatus, but for Complete.
pub data Status : Type 0 where
  need_more_data error not_implemented uri_too_long headers_too_large payload_too_large
        expectation_failed :
      Status

-- `crash` is a read outside the buffer, or an exception that leaves the noexcept function.
pub data Parsed {ℓ} (A : Type ℓ) : Type ℓ where
  ok : A → Parsed A
  stop : Status → Parsed A
  crash : Parsed A

infixl 5 ◌>>=◌ ◌>>◌
abbrev pub ◌>>=◌ {ℓ κ} : {A : Type ℓ} {B : Type κ} → Parsed A → (A → Parsed B) → Parsed B
ok a >>= f = f a
stop s >>= f = stop s
crash >>= f = crash

abbrev pub ◌>>◌ {ℓ} : {B : Type ℓ} → Parsed (Unit {0}) → Parsed B → Parsed B
m >> k = m >>= λ _. k

-- if (!test) return status;
abbrev pub require : Bool → Status → Parsed (Unit {0})
require true s = ok tt
require false s = stop s

abbrev pub require_some {ℓ} : {A : Type ℓ} → Option A → Status → Parsed A
require_some (some a) s = ok a
require_some none s = stop s

-- To split on how a step ends and keep the equation.
pub Parsed-cases {ℓ} :
    {A : Type ℓ} (m : Parsed A)
    → ((a : A) × (m ≡ ok a)) ⊎ ((s : Status) × (m ≡ stop s)) ⊎ (m ≡ crash)
Parsed-cases (ok a) = inl (a, refl)
Parsed-cases (stop s) = inr (inl (s, refl))
Parsed-cases crash = inr (inr refl)

-- A chain that ends with a result has passed each of its steps.
module _ {ℓ κ} {A : Type ℓ} {B : Type κ} where
  pub bind-ok :
      (m : Parsed A) (f : A → Parsed B) (b : B)
      → (m >>= f) ≡ ok b
      → (a : A) × (m ≡ ok a) × (f a ≡ ok b)
  bind-ok (ok a) f b e = (a, refl, e)
  bind-ok (stop s) f b e = cc
  bind-ok crash f b e = cc

  pub require_some-ok :
      (o : Option A) (s : Status) (f : A → Parsed B) (b : B)
      → (require_some o s >>= f) ≡ ok b
      → (a : A) × (o ≡ some a) × (f a ≡ ok b)
  require_some-ok (some a) s f b e = (a, refl, e)
  require_some-ok none s f b e = cc

pub require-ok {κ} :
    {B : Type κ} (test : Bool) (s : Status) (k : Parsed B) (b : B)
    → (require test s >> k) ≡ ok b
    → (test ≡ true) × (k ≡ ok b)
require-ok true s k b e = (refl, e)
require-ok false s k b e = cc

pub ok_injective {ℓ} : {A : Type ℓ} (a b : A) → ok a ≡ ok b → b ≡ a
ok_injective a b e = cc

pub passed : (test : Bool) (s : Status) (u : Unit {0}) → require test s ≡ ok u → test ≡ true
passed true s u e = refl
passed false s u e = cc
