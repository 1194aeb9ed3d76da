-- ===== src/Prelude/Errors.antt =====
-- What a function that may raise returns: its value, or the exception with what it carries.
use mathlib.Core.Path.{◌≡◌, refl, ap, ◌∙◌}

pub data Result {ℓ κ} (E : Type ℓ) (A : Type κ) : Type (ℓ ⊔ κ) where
  err : E → Result E A
  ok : A → Result E A

pub ok-injective {ℓ κ} :
    {E : Type ℓ} {A : Type κ} {a b : A} → ◌≡◌ {A = Result E A} (ok a) (ok b) → a ≡ b
ok-injective e = cc

module _ {ℓ κ μ} {E : Type ℓ} {A : Type κ} {B : Type μ} where
  infixl 5 ◌>>=◌
  abbrev pub ◌>>=◌ : Result E A → (A → Result E B) → Result E B
  err raised >>= next = err raised
  ok value >>= next = next value

  -- The first step of a run that raises nothing.
  pub >>=-eq-ok :
      (step : Result E A) (next : A → Result E B) {value : B}
      → (step >>= next) ≡ ok value
      → (first : A) × (step ≡ ok first) × (next first ≡ ok value)
  >>=-eq-ok (err raised) next run = cc
  >>=-eq-ok (ok first) next run = (first, refl, run)

  pub >>=_of_ok :
      (m : Result E A) (f : A → Result E B) {a : A} {r : Result E B}
      → m ≡ ok a
      → f a ≡ r
      → (m >>= f) ≡ r
  >>=_of_ok (ok b) f e h = ap f (ok-injective e) ∙ h
  >>=_of_ok (err x) f e h = cc
