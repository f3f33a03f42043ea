-- ===== src/Db/Chain/Writes.antt =====
-- The methods of `BlockChainDatabase` that change it: `insert`, `canonize` and `decanonize`. An error
-- leaves the best block as it was; `self.db.write(..)?` is `commit`. `rollback_best` is
-- `unimplemented!()`.
use rust_randchain_prototype.Prelude.{
  ℕ, zero, suc, not, ◌&&◌, none, some, ◌==◌, if◌then◌else◌, add_u32, H256, Result, success, failure,
  Run, ok, panic, ◌>>=◌,
}
use rust_randchain_prototype.Blocks.{BestBlock, by_hash, IndexedBlock}
use rust_randchain_prototype.Serialization.Impls.{LittleEndian, serialize_u32, serialize_h256}
use rust_randchain_prototype.Serialization.Headers.{Block}
use rust_randchain_prototype.Db.Kv.Transaction
use rust_randchain_prototype.Db.Kv.Transaction.{
  Bytes, Key, KeyValue, KeyValueDatabase, push_insert, push_delete,
}
use rust_randchain_prototype.Db.Chain.{
  BlockChainDatabase, Error, database_error, cannot_canonize, cannot_decanonize, unknown_parent,
  key_best_block_number, key_best_block_hash, block, contains_block,
}

abbrev pub Outcome : {Pk Int : Type 0} → KeyValueDatabase (Block Pk Int) → Type 0 → Type 0
Outcome kv A = Run (Result A Error × BlockChainDatabase kv)

-- The number of the block after the best one. `assert_eq!` is on.
unfoldable pub next_number : BestBlock → H256 → Run ℕ
next_number best parent =
    if parent == 0 then (if best.number == 0 then ok 0 else panic) else ok (add_u32 best.number 1)

-- The number of the block before the best one.
unfoldable pub previous_number : ℕ → H256 → Run ℕ
previous_number zero parent = if parent == 0 then ok 0 else panic
previous_number (suc n) parent = ok n

module _ {Pk Int : Type 0} where
  abbrev pub block_update : IndexedBlock Pk Int → Transaction.Transaction (Block Pk Int)
  block_update b =
      push_insert (Transaction.new (Block Pk Int))
        (KeyValue.block b.header.hash (record { block_header = b.header.raw; proof = b.proof }))

module _ {Pk Int : Type 0} {kv : KeyValueDatabase (Block Pk Int)} where
  -- `self.db.write(update).map_err(Error::DatabaseError)?`, the new best block where there is one, and
  -- the answer.
  unfoldable pub commit :
      {A : Type 0}
      → BlockChainDatabase kv
      → Transaction.Transaction (Block Pk Int)
      → BestBlock
      → A
      → Outcome kv A
  commit c update best answer =
      let (written, db) = kv.write c.db update in
      elim written [
        | failure e ↦ ok (failure (database_error e), record c { db = db })
        | success _ ↦ ok (success answer, record { best_block = best; db = db })
      ]

  -- A parent that is not stored is refused, unless its hash is zero.
  unfoldable pub insert_unknown : BlockChainDatabase kv → IndexedBlock Pk Int → Outcome kv Unit
  unfolding commit
  insert_unknown c b = do
    parent_known ← contains_block c (by_hash b.header.raw.previous_header_hash)
    (if not parent_known && not (b.header.raw.previous_header_hash == 0)
        then ok (failure unknown_parent, c)
        else commit c (block_update b) c.best_block tt)

  unfoldable pub insert : BlockChainDatabase kv → IndexedBlock Pk Int → Outcome kv Unit
  unfolding insert_unknown
  insert c b = do
    known ← contains_block c (by_hash b.header.hash)
    (if known then ok (success tt, c) else insert_unknown c b)

  -- `rollback_best` is `unimplemented!()`.
  abbrev pub rollback_best : BlockChainDatabase kv → Outcome kv H256
  rollback_best c = panic

module _ {Pk Int : Type 0} (order : LittleEndian) where
  -- The two entries under `Key::Meta`.
  abbrev pub push_best :
      Transaction.Transaction (Block Pk Int) → BestBlock → Transaction.Transaction (Block Pk Int)
  push_best update best =
      push_insert
        (push_insert update (KeyValue.meta key_best_block_hash (serialize_h256 best.hash)))
        (KeyValue.meta key_best_block_number (serialize_u32 order best.number))

  abbrev pub canonize_update : BestBlock → Transaction.Transaction (Block Pk Int)
  canonize_update best =
      push_best
        (push_insert
          (push_insert (Transaction.new (Block Pk Int)) (KeyValue.block_hash best.number best.hash))
          (KeyValue.block_number best.hash best.number))
        best

  abbrev pub decanonize_update : ℕ → H256 → BestBlock → Transaction.Transaction (Block Pk Int)
  decanonize_update number hash best =
      push_best
        (push_delete (push_delete (Transaction.new (Block Pk Int)) (Key.block_hash number))
          (Key.block_number hash))
        best

module _ {Pk Int : Type 0} (order : LittleEndian) {kv : KeyValueDatabase (Block Pk Int)} where
  -- `canonize`, from the block that is found.
  unfoldable pub canonize_block :
      BlockChainDatabase kv → H256 → IndexedBlock Pk Int → Outcome kv Unit
  unfolding commit next_number
  canonize_block c hash b =
      let parent : H256 = b.header.raw.previous_header_hash in
      if c.best_block.hash == parent
      then (next_number c.best_block parent >>= λ number.
          let best : BestBlock = record { number = number; hash = hash } in
          commit c (canonize_update order best) best tt)
      else ok (failure cannot_canonize, c)

  unfoldable pub canonize : BlockChainDatabase kv → H256 → Outcome kv Unit
  unfolding canonize_block
  canonize c hash = do
    found ← block c (by_hash hash)
    elim found [ none ↦ ok (failure cannot_canonize, c) | some b ↦ canonize_block c hash b ]

  -- `decanonize`, from the block that is found.
  unfoldable pub decanonize_block : BlockChainDatabase kv → IndexedBlock Pk Int → Outcome kv H256
  unfolding commit previous_number
  decanonize_block c b =
      let parent : H256 = b.header.raw.previous_header_hash in
      previous_number c.best_block.number parent >>= λ number.
      let best : BestBlock = record { number = number; hash = parent } in
      commit c (decanonize_update order c.best_block.number c.best_block.hash best) best
        c.best_block.hash

  unfoldable pub decanonize : BlockChainDatabase kv → Outcome kv H256
  unfolding decanonize_block
  decanonize c = do
    found ← block c (by_hash c.best_block.hash)
    elim found [ none ↦ ok (failure cannot_decanonize, c) | some b ↦ decanonize_block c b ]
