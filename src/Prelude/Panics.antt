-- ===== src/Prelude/Panics.antt =====
-- The outcome of code that may panic: a failed `assert!`, `expect` or index, or `unreachable!`.
use mathlib.Core.Path.{◌≡◌, refl}
use mathlib.Core.Option.{Option, none, some}

pub data Run {ℓ} (A : Type ℓ) : Type ℓ where
  ok : A → Run A
  panic : Run A

-- A panic ends the run.
infixl 5 ◌>>=◌
abbrev pub ◌>>=◌ {ℓ κ} : {A : Type ℓ} {B : Type κ} → Run A → (A → Run B) → Run B
panic >>= after = panic
ok found >>= after = after found

-- `Option::expect` and slice indexing.
abbrev pub expect {ℓ} : {A : Type ℓ} → Option A → Run A
expect none = panic
expect (some a) = ok a

pub ok-injective {ℓ} : {A : Type ℓ} {x y : A} → ok x ≡ ok y → x ≡ y
ok-injective e = cc

-- A run that ends well has passed through its first part.
pub >>=-eq-ok {ℓ κ} :
    {A : Type ℓ} {B : Type κ} (step : Run A) (after : A → Run B) {end : B}
    → (step >>= after) ≡ ok end
    → (mid : A) × (step ≡ ok mid) × (after mid ≡ ok end)
>>=-eq-ok panic after whole = cc
>>=-eq-ok (ok mid) after whole = (mid, refl, whole)
