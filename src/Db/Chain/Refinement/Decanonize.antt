-- ===== src/Db/Chain/Refinement/Decanonize.antt =====
-- `decanonize` over a reliable store does what the ledger's method says.
use rust_randchain_prototype.Prelude.{◌≡◌, refl, subst, Option, List, [], ◌∷◌, length, H256, ok}
use rust_randchain_prototype.Serialization.Impls.{LittleEndian}
use rust_randchain_prototype.Serialization.Headers.{Block}
use rust_randchain_prototype.Db.Kv.Transaction.{Key, Value, KeyValueDatabase}
use rust_randchain_prototype.Db.Kv.Reliable.{IsReliable}
use rust_randchain_prototype.Db.Chain.{BlockChainDatabase}
use rust_randchain_prototype.Db.Chain.Writes
use rust_randchain_prototype.Db.Chain.Writes.{
  Outcome, commit, block_update, canonize_update, decanonize_update, canonize_block,
  decanonize_block, insert_unknown, next_number, previous_number,
}
use rust_randchain_prototype.Db.Chain.Ledger
use rust_randchain_prototype.Db.Chain.Ledger.{
  Ledger, IsLedger, IsLinked, best_of, at, position, parent_of, stored, with_block, fresh, tip_zero,
  canonize_found, position_absent, at_above,
}
use rust_randchain_prototype.Db.Chain.Refinement.{Represents, block_lem}
use rust_randchain_prototype.Db.Chain.Refinement.Tables.{
  Refines, Holds-same, Holds-decanonize, commit_lem, shown, shown-Represents, shown_c,
}

-- The number that `decanonize` computes is that of the block below the best one.
previous_number-length :
    {Pk Int : Type 0} (below : List H256) (b : Block Pk Int)
    → parent_of b ≡ (best_of below).hash
    → previous_number (length below) (parent_of b) ≡ ok (best_of below).number
unfolding previous_number
previous_number-length [] b is_parent = rw is_parent refl
previous_number-length (j ∷ below) b is_parent = refl

module _ {Pk Int : Type 0} {kv : KeyValueDatabase (Block Pk Int)} {Valid : kv.State → Type 0}
    {table : kv.State → Key → Option (Value (Block Pk Int))}
    (reliable : IsReliable kv Valid table) where
  -- By the shape of the chain.
  decanonize-shown :
      {order : LittleEndian} (c : BlockChainDatabase kv) (chain : List H256)
      (blocks : H256 → Option (Block Pk Int))
      (represents : Represents order Valid table c (record { chain = chain; blocks = blocks }))
      → IsLedger (record { chain = chain; blocks = blocks })
      → Refines order Valid table
          (Writes.decanonize order
            (shown reliable c (record { chain = chain; blocks = blocks }) represents))
          (Ledger.decanonize (record { chain = chain; blocks = blocks }))
  unfolding Writes.decanonize Ledger.decanonize decanonize_block shown
  decanonize-shown {order = order} c [] blocks represents valid =
      let l : Ledger (Block Pk Int) = record { chain = []; blocks = blocks } in
      rw
        (
          block_lem reliable (shown reliable c l represents) l
              (shown-Represents reliable c l represents) 0,
          valid.zero_free,
        )
        (shown reliable c l represents, refl, shown-Represents reliable c l represents)
  decanonize-shown {order = order} c (h ∷ below) blocks represents valid =
      let l : Ledger (Block Pk Int) = record { chain = h ∷ below; blocks = blocks } in
      let (b, is_b, is_parent) = valid.linked.0 in
      let (db, committed, db_valid, is_after) =
        commit_lem reliable (shown reliable c l represents)
          (decanonize_update order (length below) h (best_of below)) (best_of below) h
          represents.0 in
      rw
        (
          block_lem reliable (shown reliable c l represents) l
              (shown-Represents reliable c l represents) h,
          is_b,
          previous_number-length below b is_parent,
          is_parent,
        )
        (
          record { best_block = best_of below; db = db },
          committed,
          (
            db_valid,
            refl,
            Holds-same is_after
                (Holds-decanonize (table c.db) l represents.2 h below refl valid.distinct.0),
          ),
        )

  -- `decanonize` answers as the ledger's method, and what it leaves represents what that leaves: the best
  -- block is taken off the chain, and its hash is the answer; of an empty chain it is refused.
  pub decanonize-Refines :
      {order : LittleEndian} (c : BlockChainDatabase kv) (l : Ledger (Block Pk Int))
      → Represents order Valid table c l
      → IsLedger l
      → Refines order Valid table (Writes.decanonize order c) (Ledger.decanonize l)
  decanonize-Refines {order = order} c l represents valid =
      subst (λ d. Refines order Valid table (Writes.decanonize order d) (Ledger.decanonize l))
        (shown_c reliable c l represents) (decanonize-shown c l.chain l.blocks represents valid)
