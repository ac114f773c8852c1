-- ===== src/Prelude/Results.antt =====
-- Fallible results, `Result` of the standard library.
use mathlib.Core.Path.{◌≡◌, refl, ap}
use mathlib.Core.Logic.{◌⊎◌, inl, inr}

pub data Result {ℓ κ} (A : Type ℓ) (E : Type κ) : Type (ℓ ⊔ κ) where
  ok : A → Result A E
  err : E → Result A E

infixl 2 ◌>>=◌
abbrev pub ◌>>=◌ {ℓ κ μ} :
    {A : Type ℓ} {B : Type κ} {E : Type μ} → Result A E → (A → Result B E) → Result B E
ok a >>= f = f a
err e >>= f = err e

pub Result-cases {ℓ κ} :
    {A : Type ℓ} {E : Type κ} (r : Result A E) → ((a : A) × (r ≡ ok a)) ⊎ ((e : E) × (r ≡ err e))
Result-cases (ok a) = inl (a, refl)
Result-cases (err e) = inr (e, refl)

module _ {ℓ κ μ} {A : Type ℓ} {B : Type κ} {E : Type μ} {r : Result A E} (f : A → Result B E) where
  pub bind_ok : {a : A} → r ≡ ok a → (r >>= f) ≡ f a
  bind_ok p = ap (λ r. r >>= f) p

  pub bind_err : {e : E} → r ≡ err e → (r >>= f) ≡ err e
  bind_err p = ap (λ r. r >>= f) p

pub bind_inverse :
    {A B E : Type 0} (r : Result A E) (f : A → Result B E) (b : B)
    → (r >>= f) ≡ ok b
    → (a : A) × (r ≡ ok a) × (f a ≡ ok b)
bind_inverse (ok a) f b p = (a, refl, p)
bind_inverse (err e) f b p = absurd (cc)
