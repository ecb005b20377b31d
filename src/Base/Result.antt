-- ===== src/Base/Result.antt =====
-- What a call returns or raises.
use mathlib.Core.Path.{◌≡◌, refl}
use mathlib.Core.Logic.{◌⊎◌, inl, inr}

pub data Result {ℓ κ} (E : Type ℓ) (A : Type κ) : Type (ℓ ⊔ κ) where
  raise : E → Result E A
  return : A → Result E A

infixl 5 ◌>>=◌
abbrev pub ◌>>=◌ {ℓ κ μ} :
    {E : Type ℓ} {A : Type κ} {B : Type μ} → Result E A → (A → Result E B) → Result E B
raise error >>= next = raise error
return value >>= next = next value

pub attempt-cases {ℓ κ} :
    {E : Type κ} {A : Type ℓ} (m : Result E A)
    → ((e : E) × (m ≡ raise e)) ⊎ ((a : A) × (m ≡ return a))
attempt-cases (raise e) = inl (e, refl)
attempt-cases (return a) = inr (a, refl)
