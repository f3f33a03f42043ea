-- ===== src/Db/Chain/Refinement/Forks.antt =====
-- A fork along a route that `block_origin` answers has the chain of that route, and switching to it makes
-- that chain the database's.
use rust_randchain_prototype.Prelude.{
  ℕ, ◌<◌, ◌≤◌, ◌^◌, ◌≡◌, refl, ap, ◌∙◌, subst, true, false, Bool-cases, inl, inr, Option, some,
  List, [], ◌∷◌, ◌++◌, append_assoc, ◌==◌, ==_self, ltb, arith, length, reverse, reverse-cons, H256,
  Result, success, ok,
}
use rust_randchain_prototype.Serialization.Impls.{LittleEndian}
use rust_randchain_prototype.Serialization.Headers.{Block}
use rust_randchain_prototype.Db.Kv.Transaction.{Key, Value, KeyValueDatabase}
use rust_randchain_prototype.Db.Kv.Reliable.{IsReliable}
use rust_randchain_prototype.Db.Chain.{BlockChainDatabase, Error}
use rust_randchain_prototype.Db.Chain.Writes
use rust_randchain_prototype.Db.Chain.Writes.{Outcome}
use rust_randchain_prototype.Db.Chain.Forks.{decanonize_route, canonize_route}
use rust_randchain_prototype.Db.Chain.Ledger
use rust_randchain_prototype.Db.Chain.Ledger.{
  Ledger, IsLedger, best_of, position, position_lt, parent_of, canonize_found,
}
use rust_randchain_prototype.Db.Chain.LedgerSteps.{canonize-IsLedger, decanonize-IsLedger}
use rust_randchain_prototype.Db.Chain.Routes.{SideRoute, joined, aside, above, up_to}
use rust_randchain_prototype.Db.Chain.Refinement.{Represents}
use rust_randchain_prototype.Db.Chain.Refinement.Canonize.{canonize-Refines}
use rust_randchain_prototype.Db.Chain.Refinement.Decanonize.{decanonize-Refines}

-- Up to the number of a hash, the hash is the best one.
pub up_to_tip :
    (chain : List H256) (h n : ℕ) → position chain h ≡ some n → (best_of (up_to chain n)).hash ≡ h
up_to_tip [] h n e = cc
up_to_tip (k ∷ below) h n e = elim (Bool-cases (k == h)) [
  | inl same ↦ let last : ltb n (length below) ≡ false = ground arith in rw last (ground arith)
  | inr apart ↦
      let within : position below h ≡ some n = ground arith in
      let more : ltb n (length below) ≡ true = ground (arith, position_lt below h n within) in
      rw more (up_to_tip below h n within)
]

canonize_on_top :
    {Pk Int : Type 0} (l : Ledger (Block Pk Int)) (h : H256) (b : Block Pk Int)
    → l.blocks h ≡ some b
    → (best_of l.chain).hash ≡ parent_of b
    → Ledger.canonize l h ≡ (success tt, record l { chain = h ∷ l.chain })
unfolding Ledger.canonize
canonize_on_top l h b is_b is_tip =
    let same : ((best_of l.chain).hash == parent_of b) ≡ true = ground arith in rw (is_b, same) refl

module _ {Pk Int : Type 0} {order : LittleEndian} {kv : KeyValueDatabase (Block Pk Int)}
    {Valid : kv.State → Type 0} {table : kv.State → Key → Option (Value (Block Pk Int))}
    (reliable : IsReliable kv Valid table) where
  -- The loop takes off the hashes above a number, each the one that is expected.
  pub decanonize_route-above :
      (chain : List H256) (blocks : H256 → Option (Block Pk Int)) (n : ℕ)
      (c : BlockChainDatabase kv)
      → Represents order Valid table c (record { chain = chain; blocks = blocks })
      → IsLedger (record { chain = chain; blocks = blocks })
      → (c' : BlockChainDatabase kv) × (decanonize_route order c (above chain n)
          ≡ ok (success tt, c'))
        × Represents order Valid table c' (record { chain = up_to chain n; blocks = blocks })
        × IsLedger (record { chain = up_to chain n; blocks = blocks })
  unfolding decanonize_route Ledger.decanonize
  decanonize_route-above [] blocks n c represents valid = (c, refl, represents, valid)
  decanonize_route-above (h ∷ below) blocks n c represents valid =
      elim (Bool-cases (ltb n (length below))) [
        | inr last ↦ rw last (c, refl, represents, valid)
        | inl more ↦
            let l : Ledger (Block Pk Int) = record { chain = h ∷ below; blocks = blocks } in
            let (c', decanonized, below_represents) =
              decanonize-Refines reliable c l represents valid in
            let (c'', rest, up_represents, up_valid) =
              decanonize_route-above below blocks n c' below_represents
                (decanonize-IsLedger l valid) in
            rw (more, decanonized, ==_self h) (c'', rest, up_represents, up_valid)
      ]

  -- One more block, whose parent is the best one.
  pub canonize_next :
      (c : BlockChainDatabase kv) (l : Ledger (Block Pk Int)) (h : H256) (b : Block Pk Int)
      → Represents order Valid table c l
      → IsLedger l
      → length l.chain < 2 ^ 32
      → l.blocks h ≡ some b
      → (best_of l.chain).hash ≡ parent_of b
      → (c' : BlockChainDatabase kv) × (Writes.canonize order c h ≡ ok (success tt, c'))
        × Represents order Valid table c' (record l { chain = h ∷ l.chain })
        × IsLedger (record l { chain = h ∷ l.chain })
  canonize_next c l h b represents valid short is_b is_tip =
      let on_top = canonize_on_top l h b is_b is_tip in
      let (c', canonized, then_represents) =
        canonize-Refines reliable c l represents h valid short in
      (
        c',
        canonized ∙ ap (λ p. ok (p.0, c')) on_top,
        subst
            (λ (p : Result Unit Error × Ledger (Block Pk Int)). Represents order Valid table c' p.1)
            on_top then_represents,
        subst (λ (p : Result Unit Error × Ledger (Block Pk Int)). IsLedger p.1) on_top
            (canonize-IsLedger l h valid),
      )

  -- The loop puts the hashes of a route, the oldest first, on top of the number where it joins the chain.
  pub canonize_route-way :
      (l : Ledger (Block Pk Int)) {h : H256} {n : ℕ} {route : List H256}
      (way : SideRoute l h n route) (later : List H256) (c : BlockChainDatabase kv)
      → Represents order Valid table c (record l { chain = up_to l.chain n })
      → IsLedger (record l { chain = up_to l.chain n })
      → length (route ++ up_to l.chain n) ≤ 2 ^ 32
      → (c' : BlockChainDatabase kv) × (canonize_route order c (reverse route ++ later)
          ≡ canonize_route order c' later)
        × Represents order Valid table c' (record l { chain = route ++ up_to l.chain n })
        × IsLedger (record l { chain = route ++ up_to l.chain n })
        × ((best_of (route ++ up_to l.chain n)).hash ≡ h)
  unfolding canonize_route
  canonize_route-way l {h = h} {n = n} (joined found) later c represents valid short =
      (c, refl, represents, valid, up_to_tip l.chain h n found)
  canonize_route-way l {h = h} {n = n} {route = _ ∷ route} (aside b off is_b way) later c represents
        valid short =
      let (c', before, c'_represents, c'_valid, is_tip) =
        canonize_route-way l way (h ∷ later) c represents valid (omega arith) in
      let (c'', canonized, then_represents, then_valid) =
        canonize_next c' (record l { chain = route ++ up_to l.chain n }) h b c'_represents c'_valid
          (omega arith) is_b is_tip in
      (
        c'',
        ap (λ hs. canonize_route order c (hs ++ later)) (reverse-cons h route)
            ∙ ap (canonize_route order c) (append_assoc (reverse route) (h ∷ []) later)
            ∙ before
            ∙ rw canonized refl,
        then_represents,
        then_valid,
        refl,
      )
