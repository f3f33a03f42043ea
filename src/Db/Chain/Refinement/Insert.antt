-- ===== src/Db/Chain/Refinement/Insert.antt =====
-- `insert` over a reliable store does what the ledger's method says.
use rust_randchain_prototype.Prelude.{
  refl, Bool, not, ◌&&◌, true, false, Option, is_some, ◌==◌, if◌then◌else◌, Result, success,
  failure, ok,
}
use rust_randchain_prototype.Blocks.{IndexedBlock}
use rust_randchain_prototype.Serialization.Impls.{LittleEndian}
use rust_randchain_prototype.Serialization.Headers.{Block}
use rust_randchain_prototype.Db.Kv.Transaction.{Key, Value, KeyValueDatabase}
use rust_randchain_prototype.Db.Kv.Reliable.{IsReliable}
use rust_randchain_prototype.Db.Chain.{BlockChainDatabase, Error, unknown_parent}
use rust_randchain_prototype.Db.Chain.Writes
use rust_randchain_prototype.Db.Chain.Writes.{
  Outcome, commit, block_update, canonize_update, decanonize_update, canonize_block,
  decanonize_block, insert_unknown, next_number, previous_number,
}
use rust_randchain_prototype.Db.Chain.Ledger
use rust_randchain_prototype.Db.Chain.Ledger.{
  Ledger, IsLedger, IsLinked, best_of, at, position, parent_of, stored, with_block, fresh, tip_zero,
  canonize_found, position_absent, at_above,
}
use rust_randchain_prototype.Db.Chain.Refinement.{Represents, contains_block_lem}
use rust_randchain_prototype.Db.Chain.Refinement.Tables.{
  Refines, Holds-same, Holds-block, commit_lem,
}

module _ {Pk Int : Type 0} {kv : KeyValueDatabase (Block Pk Int)} {Valid : kv.State → Type 0}
    {table : kv.State → Key → Option (Value (Block Pk Int))}
    (reliable : IsReliable kv Valid table) where
  module _ {order : LittleEndian} (c : BlockChainDatabase kv) (l : Ledger (Block Pk Int))
      (represents : Represents order Valid table c l) where
    refused :
        {A : Type 0} (e : Error)
        → Refines order Valid table {A = A} (ok (failure e, c)) (failure e, l)
    refused e = (c, refl, represents)

    insert_unknown-Refines :
        (b : IndexedBlock Pk Int)
        → Refines order Valid table (insert_unknown c b) (
            if not (is_some (l.blocks b.header.raw.previous_header_hash))
              && not (b.header.raw.previous_header_hash == 0)
            then (failure unknown_parent, l)
            else (success tt, with_block l b))
    unfolding insert_unknown
    insert_unknown-Refines b =
        rw (contains_block_lem reliable c l represents b.header.raw.previous_header_hash) (
          go (
            not (is_some (l.blocks b.header.raw.previous_header_hash))
            && not (b.header.raw.previous_header_hash == 0)))
      where
        go :
            (test : Bool)
            → Refines order Valid table
                (if test
                  then ok (failure unknown_parent, c)
                  else commit c (block_update b) c.best_block tt)
                (if test then (failure unknown_parent, l) else (success tt, with_block l b))
        go true = refused unknown_parent
        go false =
            let (db, committed, db_valid, is_after) =
              commit_lem reliable c (block_update b) c.best_block tt represents.0 in
            (
              record { best_block = c.best_block; db = db },
              committed,
              (
                db_valid,
                represents.1,
                Holds-same is_after (Holds-block (table c.db) l represents.2 b),
              ),
            )

    -- `insert` answers as the ledger's method, and what it leaves represents what that leaves.
    pub insert-Refines :
        (b : IndexedBlock Pk Int)
        → Refines order Valid table (Writes.insert c b) (Ledger.insert l b)
    unfolding Writes.insert Ledger.insert
    insert-Refines b =
        rw (contains_block_lem reliable c l represents b.header.hash)
          (go (is_some (l.blocks b.header.hash)) (insert_unknown-Refines b))
      where
        go :
            (test : Bool) {unknown : Outcome kv Unit}
            {spec : Result Unit Error × Ledger (Block Pk Int)}
            → Refines order Valid table unknown spec
            → Refines order Valid table
                (if test then ok (success tt, c) else unknown)
                (if test then (success tt, l) else spec)
        go true refines = (c, refl, represents)
        go false refines = refines
