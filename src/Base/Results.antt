-- ===== src/Base/Results.antt =====
-- The result of code that may raise: a value, or the error that was raised.
use mathlib.Core.Path.{◌≡◌, refl}
use mathlib.Core.Option.{some}
use mathlib.Core.Bool.{Bool, true, false}
use mathlib.Core.Logic.{◌⊎◌, inl, inr}
use native.Mathlib.Omega.{arith}

pub data Result {ℓ κ} (E : Type κ) (A : Type ℓ) : Type (ℓ ⊔ κ) where
  ok : A → Result E A
  err : E → Result E A

infixl 5 ◌>>=◌ ◌>>◌
abbrev pub ◌>>=◌ {ℓ κ μ} :
    {E : Type μ} {A : Type ℓ} {B : Type κ} → Result E A → (A → Result E B) → Result E B
ok a >>= f = f a
err e >>= f = err e

abbrev pub ◌>>◌ {ℓ μ} : {E : Type μ} {B : Type ℓ} → Result E (Unit {0}) → Result E B → Result E B
m >> k = m >>= λ _. k

-- `if not b: raise e`
abbrev pub guard {μ} : {E : Type μ} → Bool → E → Result E (Unit {0})
guard true e = ok tt
guard false e = err e

pub Result-cases {ℓ κ} :
    {E : Type κ} {A : Type ℓ} (r : Result E A) → ((a : A) × (r ≡ ok a)) ⊎ ((e : E) × (r ≡ err e))
Result-cases (ok a) = inl (a, refl)
Result-cases (err e) = inr (e, refl)

-- Inversions of the checks of a chain.
module _ {ℓ κ μ ν} {E : Type ν} {A : Type ℓ} {B : Type κ} {P : Type μ} where
  pub bind-ok :
      (m : Result E A) (f : A → Result E B) {b : B}
      → (m >>= f) ≡ ok b
      → ((a : A) → m ≡ ok a → f a ≡ ok b → P)
      → P
  bind-ok (ok a) f h k = k a refl h
  bind-ok (err e) f h k = cc

pub guard-ok {ν} : {E : Type ν} (b : Bool) (e : E) → guard b e ≡ ok tt → b ≡ true
guard-ok true e h = refl
guard-ok false e h = cc

pub ok-injective {ℓ κ} :
    {E : Type κ} {A : Type ℓ} {a b : A} → ◌≡◌ {A = Result E A} (ok a) (ok b) → a ≡ b
ok-injective h = ground arith

pub some-injective {ℓ} : {A : Type ℓ} {a b : A} → some a ≡ some b → a ≡ b
some-injective h = ground arith
