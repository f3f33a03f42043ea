-- ===== src/Prelude/HashMap.antt =====
-- What the source uses of `std::collections::HashMap` over hashes: an association list that holds a
-- key once.
use Prim.Native.Nat.{ℕ}
use mathlib.Core.Path.{◌≡◌, refl}
use mathlib.Core.List.{List, [], ◌∷◌}
use mathlib.Core.Bool.{◌||◌}
use mathlib.Core.Option.{Option, none, some}
use native.Mathlib.Omega.{arith}
use rust_randchain_prototype.Prelude.HashLists.{contains, Distinct}
use rust_randchain_prototype.Prelude.Tests.{is_some, ◌==◌, if◌then◌else◌}

module _ {ℓ} {V : Type ℓ} where
  unfoldable pub get : List (ℕ × V) → ℕ → Option V
  get [] k = none
  get ((j, v) ∷ m) k = if j == k then some v else get m k

  unfoldable pub insert : List (ℕ × V) → ℕ → V → List (ℕ × V)
  insert [] k v = (k, v) ∷ []
  insert ((j, w) ∷ m) k v = if j == k then (k, v) ∷ m else (j, w) ∷ insert m k v

  unfoldable pub remove : List (ℕ × V) → ℕ → List (ℕ × V)
  remove [] k = []
  remove ((j, w) ∷ m) k = let rest = remove m k in if j == k then rest else (j, w) ∷ rest

  abbrev pub keys : List (ℕ × V) → List ℕ
  keys [] = []
  keys ((j, w) ∷ m) = j ∷ keys m

  pub get-insert :
      (m : List (ℕ × V)) (k : ℕ) (v : V) (j : ℕ)
      → get (insert m k v) j ≡ (if k == j then some v else get m j)
  unfolding get insert
  get-insert [] k v j = refl
  get-insert ((i, w) ∷ m) k v j = ground (arith, get-insert m k v j)

  pub get-remove :
      (m : List (ℕ × V)) (k j : ℕ) → get (remove m k) j ≡ (if k == j then none else get m j)
  unfolding get remove
  get-remove [] k j = ground arith
  get-remove ((i, w) ∷ m) k j = ground (arith, get-remove m k j)

  pub contains-keys : (m : List (ℕ × V)) (k : ℕ) → contains (keys m) k ≡ is_some (get m k)
  unfolding get
  contains-keys [] k = refl
  contains-keys ((i, w) ∷ m) k = ground (arith, contains-keys m k)

  pub contains-keys-insert :
      (m : List (ℕ × V)) (k j : ℕ) (v : V)
      → contains (keys (insert m k v)) j ≡ (k == j || contains (keys m) j)
  unfolding insert
  contains-keys-insert [] k j v = ground arith
  contains-keys-insert ((i, w) ∷ m) k j v = ground (arith, contains-keys-insert m k j v)

  pub keys-insert-Distinct :
      (m : List (ℕ × V)) (k : ℕ) (v : V) → Distinct (keys m) → Distinct (keys (insert m k v))
  unfolding insert
  keys-insert-Distinct [] k v d = (refl, tt)
  keys-insert-Distinct ((i, w) ∷ m) k v d =
      ground (arith, keys-insert-Distinct m k v d.1, contains-keys-insert m k i v)
