-- ===== src/Base/Result.antt =====
-- A value with its error, `(T, error)` in Go.
use mathlib.Core.Path.{◌≡◌, refl}

pub data Result {ℓ κ} (E : Type ℓ) (A : Type κ) : Type (ℓ ⊔ κ) where
  ok : A → Result E A
  err : E → Result E A

infixl 5 ◌>>=◌
abbrev pub ◌>>=◌ {ℓ κ μ} :
    {E : Type ℓ} {A : Type κ} {B : Type μ} → Result E A → (A → Result E B) → Result E B
ok a >>= f = f a
err e >>= f = err e

-- A value behind a step is the step's, at the value before.
pub then-eq-ok {ℓ κ μ ν} :
    {E : Type ℓ} {A : Type κ} {F : Type μ} {B : Type ν} (r : Result E A) (f : A → Result F B)
    (g : E → F) (b : B)
    → (elim r as (λ x. Result F B) [ err e ↦ err (g e) | ok a ↦ f a ]) ≡ ok b
    → (a : A) × (r ≡ ok a) × (f a ≡ ok b)
then-eq-ok (ok a) f g b e = (a, refl, e)
then-eq-ok (err x) f g b e = cc
