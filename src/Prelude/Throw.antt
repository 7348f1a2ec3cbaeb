-- ===== src/Prelude/Throw.antt =====
-- Code that may throw: a value or the error thrown.
use mathlib.Core.Path.{◌≡◌, refl}

pub data Result {ℓ κ} (E : Type ℓ) (A : Type κ) : Type (ℓ ⊔ κ) where
  ok : A → Result E A
  err : E → Result E A

infixl 5 ◌>>=◌
abbrev pub ◌>>=◌ {ℓ κ μ} :
    {E : Type ℓ} {A : Type κ} {B : Type μ} → Result E A → (A → Result E B) → Result E B
ok a >>= f = f a
err e >>= f = err e

-- What a successful bind went through.
pub >>=-eq-ok {ℓ κ μ} :
    {E : Type ℓ} {A : Type κ} {B : Type μ} (r : Result E A) (next : A → Result E B) {out : B}
    → (r >>= next) ≡ ok out
    → (a : A) × (r ≡ ok a) × (next a ≡ ok out)
>>=-eq-ok (err e) next thrown = cc
>>=-eq-ok (ok a) next out_eq = (a, refl, out_eq)
