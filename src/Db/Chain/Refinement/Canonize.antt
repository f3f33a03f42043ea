-- ===== src/Db/Chain/Refinement/Canonize.antt =====
-- `canonize` over a reliable store does what the ledger's method says.
use rust_randchain_prototype.Prelude.{
  ◌<◌, ◌^◌, ◌≡◌, refl, sym, ap, subst, inl, inr, Bool-cases, Option, none, some, List, [], ◌∷◌,
  ◌==◌, arith, length, H256, failure, ok,
}
use rust_randchain_prototype.Serialization.Impls.{LittleEndian}
use rust_randchain_prototype.Serialization.Headers.{Block}
use rust_randchain_prototype.Db.Kv.Transaction.{Key, Value, KeyValueDatabase}
use rust_randchain_prototype.Db.Kv.Reliable.{IsReliable}
use rust_randchain_prototype.Db.Chain.{BlockChainDatabase, cannot_canonize, block_under}
use rust_randchain_prototype.Db.Chain.Writes
use rust_randchain_prototype.Db.Chain.Writes.{
  Outcome, commit, block_update, canonize_update, decanonize_update, canonize_block,
  decanonize_block, insert_unknown, next_number, previous_number,
}
use rust_randchain_prototype.Db.Chain.Ledger
use rust_randchain_prototype.Db.Chain.Ledger.{
  Ledger, IsLedger, IsLinked, best_of, at, position, parent_of, stored, with_block, fresh, tip_zero,
  canonize_found, position_absent, at_above,
}
use rust_randchain_prototype.Db.Chain.Refinement.{Represents, block_lem}
use rust_randchain_prototype.Db.Chain.Refinement.Tables.{
  Refines, Holds-same, Holds-canonize, commit_lem, shown, shown-Represents, shown_c,
}

module _ {Pk Int : Type 0} {kv : KeyValueDatabase (Block Pk Int)} {Valid : kv.State → Type 0}
    {table : kv.State → Key → Option (Value (Block Pk Int))}
    (reliable : IsReliable kv Valid table) where
  module _ {order : LittleEndian} (c : BlockChainDatabase kv) (l : Ledger (Block Pk Int))
      (represents : Represents order Valid table c l) where
    -- The number that `canonize` computes is the length of the chain.
    next_number-length :
        (b : Block Pk Int)
        → IsLedger l
        → length l.chain < 2 ^ 32
        → (best_of l.chain).hash ≡ parent_of b
        → next_number (best_of l.chain) (parent_of b) ≡ ok (length l.chain)
    unfolding next_number
    next_number-length b valid short is_tip = go l.chain valid.linked short is_tip
      where
        go :
            (chain : List H256)
            → IsLinked l.blocks chain
            → length chain < 2 ^ 32
            → (best_of chain).hash ≡ parent_of b
            → next_number (best_of chain) (parent_of b) ≡ ok (length chain)
        go [] linked short is_tip = rw (sym is_tip) refl
        go (h ∷ below) linked short is_tip = elim (Bool-cases (h == 0)) [
          | inl is_zero ↦ cc (tip_zero l.blocks (h ∷ below) linked valid.zero_free (ground arith))
          | inr nonzero ↦ rw (sym is_tip, nonzero) (ap ok (ground arith))
        ]

    canonize_block-Refines :
        (h : H256) (b : Block Pk Int)
        → l.blocks h ≡ some b
        → IsLedger l
        → length l.chain < 2 ^ 32
        → Refines order Valid table
            (canonize_block order
              (shown reliable c l represents)
              h
              (record { header = record { hash = h; raw = b.block_header }; proof = b.proof }))
            (canonize_found l h (some b))
    unfolding canonize_block shown
    canonize_block-Refines h b is_found valid short =
        elim (Bool-cases ((best_of l.chain).hash == parent_of b)) [
          | inr other ↦
              rw other
                ((shown reliable c l represents), refl, (shown-Represents reliable c l represents))
          | inl same ↦
              let is_tip : (best_of l.chain).hash ≡ parent_of b = ground arith in
              let (db, committed, db_valid, is_after) =
                commit_lem reliable (shown reliable c l represents)
                  (canonize_update order (best_of (h ∷ l.chain))) (best_of (h ∷ l.chain)) tt
                  represents.0 in
              rw (same, next_number-length b valid short is_tip)
                (
                  record { best_block = best_of (h ∷ l.chain); db = db },
                  committed,
                  (
                    db_valid,
                    refl,
                    Holds-same is_after (Holds-canonize (table c.db) l represents.2 h),
                  ),
                )
        ]

    canonize-shown :
        (h : H256)
        → IsLedger l
        → length l.chain < 2 ^ 32
        → Refines order Valid table
            (Writes.canonize order (shown reliable c l represents) h)
            (Ledger.canonize l h)
    unfolding Writes.canonize Ledger.canonize
    canonize-shown h valid short =
        rw
          (block_lem reliable (shown reliable c l represents) l
            (shown-Represents reliable c l represents) h)
          (go (l.blocks h) refl)
      where
        go :
            (found : Option (Block Pk Int))
            → l.blocks h ≡ found
            → Refines order Valid table
                (elim (block_under h found) [
                  | none ↦ ok (failure cannot_canonize, (shown reliable c l represents))
                  | some b ↦ canonize_block order (shown reliable c l represents) h b
                ])
                (canonize_found l h found)
        go none is_found =
            ((shown reliable c l represents), refl, (shown-Represents reliable c l represents))
        go (some b) is_found = canonize_block-Refines h b is_found valid short

    -- `canonize` answers as the ledger's method, and what it leaves represents what that leaves: the block
    -- becomes the best one where it is stored on top of the best block, and any other is refused.
    pub canonize-Refines :
        (h : H256)
        → IsLedger l
        → length l.chain < 2 ^ 32
        → Refines order Valid table (Writes.canonize order c h) (Ledger.canonize l h)
    canonize-Refines h valid short =
        subst (λ d. Refines order Valid table (Writes.canonize order d h) (Ledger.canonize l h))
          (shown_c reliable c l represents) (canonize-shown h valid short)
