-- ===== src/P2p/Synchronizer/Ids.antt =====
-- Consecutive ids, counted around 2 ^ 32.
use rust_randchain_prototype.Prelude.{
  ℕ, zero, suc, ◌≡◌, arith, List, [], ◌∷◌, add_u32, take, ◌≤◌, refl, ap,
}

unfoldable pub ids_from : ℕ → ℕ → List ℕ
ids_from first zero = []
ids_from first (suc n) = first ∷ ids_from (add_u32 first 1) n

pub ids_from-take : (m n first : ℕ) → m ≤ n → take m (ids_from first n) ≡ ids_from first m
unfolding ids_from
ids_from-take zero n first h = refl
ids_from-take (suc m) zero first h = absurd (omega arith)
ids_from-take (suc m) (suc n) first h =
    ap (λ l. first ∷ l) (ids_from-take m n (add_u32 first 1) (omega (arith, h)))
