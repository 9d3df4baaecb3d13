-- ===== src/Common/Endings.antt =====
-- How a C function ends. `bail e` is its nonzero return value `e`. `fault` is an access outside the
-- object that a pointer points into, after which C promises nothing.
use Prim.Native.Nat.{ℕ}
use mathlib.Core.Path.{◌≡◌, refl}
use mathlib.Core.Logic.{◌⊎◌, inl, inr}

pub data Outcome {ℓ} (A : Type ℓ) : Type ℓ where
  done : A → Outcome A
  bail : ℕ → Outcome A
  fault : Outcome A

-- What follows a call that may bail or fault.
infixl 5 ◌>>=◌
abbrev pub ◌>>=◌ {ℓ κ} : {A : Type ℓ} {B : Type κ} → Outcome A → (A → Outcome B) → Outcome B
done a >>= f = f a
bail e >>= f = bail e
fault >>= f = fault

pub Outcome-cases {ℓ} :
    {A : Type ℓ} (o : Outcome A)
    → ((a : A) × (o ≡ done a)) ⊎ (((e : ℕ) × (o ≡ bail e)) ⊎ (o ≡ fault))
Outcome-cases (done a) = inl (a, refl)
Outcome-cases (bail e) = inr (inl (e, refl))
Outcome-cases fault = inr (inr refl)
