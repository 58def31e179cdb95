-- ===== src/Raises.antt =====
-- Python's exceptions as values: what a function returns, or the error that it raises.
use mathlib.Core.Path.{◌≡◌, refl}

pub data Raises {ℓ κ} (E : Type ℓ) (A : Type κ) : Type (ℓ ⊔ κ) where
  ok : A → Raises E A
  raised : E → Raises E A

-- a computation goes on with what the one before it returns, unless that raised
abbrev pub and_then {ℓ κ μ} :
    {E : Type ℓ} {A : Type κ} {B : Type μ} → (A → Raises E B) → Raises E A → Raises E B
and_then next (ok x) = next x
and_then next (raised why) = raised why

infixl 1 ◌>>=◌ ◌>>◌
abbrev pub ◌>>=◌ {ℓ κ μ} :
    {E : Type ℓ} {A : Type κ} {B : Type μ} → Raises E A → (A → Raises E B) → Raises E B
step >>= next = and_then next step

abbrev pub ◌>>◌ {ℓ κ μ} :
    {E : Type ℓ} {A : Type κ} {B : Type μ} → Raises E A → Raises E B → Raises E B
step >> next = and_then (λ _. next) step

-- what a bind that returns went through
module _ {ℓ κ μ} {E : Type ℓ} {A : Type κ} {B : Type μ} where
  pub >>=-eq-ok :
      (step : Raises E A) (next : A → Raises E B) {y : B} (returned : (step >>= next) ≡ ok y)
      → (x : A) × (step ≡ ok x) × (next x ≡ ok y)
  >>=-eq-ok (ok x) next returned = (x, refl, returned)
  >>=-eq-ok (raised why) next returned = cc returned

  pub >>-eq-ok :
      (step : Raises E A) (next : Raises E B) {y : B} (returned : (step >> next) ≡ ok y)
      → ((x : A) × (step ≡ ok x)) × (next ≡ ok y)
  >>-eq-ok (ok x) next returned = ((x, refl), returned)
  >>-eq-ok (raised why) next returned = cc returned
