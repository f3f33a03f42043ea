-- ===== src/Prelude/Results.antt =====
-- Rust's `Result`, and checks that follow one another: `a?; b?; Ok(())`.
use mathlib.Core.Path.{◌≡◌, refl}

pub data Result {ℓ} (A E : Type ℓ) : Type ℓ where
  success : A → Result A E
  failure : E → Result A E

-- The first check that fails is the answer.
infixl 4 ◌then_check◌
abbrev pub ◌then_check◌ {ℓ} : {A B E : Type ℓ} → Result A E → Result B E → Result B E
failure e then_check next = failure e
success a then_check next = next

-- Checks that follow one another succeed when each does.
pub then_check-success {ℓ} :
    {A B E : Type ℓ} (first : Result A E) (next : Result B E) {b : B}
    → (first then_check next) ≡ success b
    → ((a : A) × (first ≡ success a)) × (next ≡ success b)
then_check-success (failure e) next h = cc
then_check-success (success a) next h = ((a, refl), h)
