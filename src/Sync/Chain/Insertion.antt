-- ===== src/Sync/Chain/Insertion.antt =====
-- `insert_best_block` of `Chain`, over the database of the crate db. An error leaves the chain as it is,
-- but for what the storage has taken by then.
use rust_randchain_prototype.Prelude.{
  List, [], ◌∷◌, ◌++◌, ◌==◌, if◌then◌else◌, H256, Result, success, failure, Run, ok, panic, ◌>>=◌,
}
use rust_randchain_prototype.Blocks.{IndexedBlock}
use rust_randchain_prototype.Storage.{
  SideChainOrigin, BlockOrigin, known_block, canon_chain, side_chain,
  side_chain_becoming_canon_chain,
}
use rust_randchain_prototype.Serialization.Impls.{LittleEndian}
use rust_randchain_prototype.Serialization.Headers.{Block}
use rust_randchain_prototype.Db.Kv.Transaction.{KeyValueDatabase}
use rust_randchain_prototype.Db.Chain.{BlockChainDatabase, Error, block_hash}
use rust_randchain_prototype.Db.Chain.Writes.{Outcome, insert, canonize}
use rust_randchain_prototype.Db.Chain.Origin.{assert_is, block_origin}
use rust_randchain_prototype.Db.Chain.Forks.{fork, switch_to_fork}
use rust_randchain_prototype.Sync.BestHeaders
use rust_randchain_prototype.Sync.Chain.{Chain}

pub record BlockInsertionResult : Type 0 where
  pub canonized_blocks_hashes : List H256

abbrev pub Inserted : {Pk Int : Type 0} → KeyValueDatabase (Block Pk Int) → Type 0
Inserted {Pk = Pk} {Int = Int} kv =
    Run (Result BlockInsertionResult Error × Chain Pk Int (BlockChainDatabase kv))

module _ {Pk Int : Type 0} {kv : KeyValueDatabase (Block Pk Int)} where
  -- `?` after a call that changes the storage: on an error the storage stays as the call left it.
  abbrev pub and_storage :
      Chain Pk Int (BlockChainDatabase kv)
      → Outcome kv Unit
      → (BlockChainDatabase kv → Inserted kv)
      → Inserted kv
  and_storage c call after = call >>= λ result. elim result.0 [
    | failure e ↦ ok (failure e, record c { storage = result.1 })
    | success _ ↦ after result.1
  ]

  -- `self.headers_chain.block_inserted_to_storage(..)`
  abbrev pub tell_headers :
      Chain Pk Int (BlockChainDatabase kv) → H256 → Chain Pk Int (BlockChainDatabase kv)
  tell_headers c hash = record c {
    headers_chain =
        BestHeaders.block_inserted_to_storage c.headers_chain hash c.best_storage_block.hash;
  }

  -- What follows a new best block of the storage: it is remembered, and the headers are told.
  abbrev pub remember_best :
      Chain Pk Int (BlockChainDatabase kv)
      → BlockChainDatabase kv
      → H256
      → Chain Pk Int (BlockChainDatabase kv)
  remember_best c storage hash =
      tell_headers (record c { storage = storage; best_storage_block = storage.best_block }) hash

  -- Case 3: the block is on a side chain.
  unfoldable pub insert_side :
      Chain Pk Int (BlockChainDatabase kv) → IndexedBlock Pk Int → Inserted kv
  insert_side c block = and_storage c (insert c.storage block) (λ stored. ok (
    success (record { canonized_blocks_hashes = [] }),
    tell_headers (record c { storage = stored }) block.header.hash,
  ))

module _ {Pk Int : Type 0} (order : LittleEndian) {kv : KeyValueDatabase (Block Pk Int)} where
  -- Case 1: the block is on top of the chain.
  unfoldable pub insert_canon :
      Chain Pk Int (BlockChainDatabase kv) → IndexedBlock Pk Int → Inserted kv
  insert_canon c block = and_storage c (insert c.storage block) (λ stored.
      and_storage c (canonize order stored block.header.hash) (λ canonized.
        if canonized.best_block.hash == block.header.hash
        then ok (
          success (record { canonized_blocks_hashes = block.header.hash ∷ [] }),
          remember_best c canonized block.header.hash,
        )
        else panic))

  -- Case 2: the block makes a side chain the longer one. The fork is a storage of its own.
  unfoldable pub insert_becoming_canon :
      Chain Pk Int (BlockChainDatabase kv) → IndexedBlock Pk Int → SideChainOrigin → Inserted kv
  insert_becoming_canon c block origin = do
    forked ← fork order c.storage origin
    elim forked [
      | failure e ↦ ok (failure e, c)
      | success tried ↦ insert tried block >>= λ stored. elim stored.0 [
        | failure e ↦ ok (failure e, c)
        | success _ ↦ canonize order stored.1 block.header.hash >>= λ canonized. elim canonized.0 [
          | failure e ↦ ok (failure e, c)
          | success _ ↦ and_storage c (switch_to_fork c.storage canonized.1) (λ switched. ok (
            success (record {
              canonized_blocks_hashes = origin.canonized_route ++ (block.header.hash ∷ []);
            }),
            remember_best c switched block.header.hash,
          ))
        ]
      ]
    ]

  unfoldable pub insert_at_origin :
      Chain Pk Int (BlockChainDatabase kv)
      → IndexedBlock Pk Int
      → Result BlockOrigin Error
      → Inserted kv
  unfolding insert_canon insert_becoming_canon insert_side
  insert_at_origin c block (failure e) = ok (failure e, c)
  insert_at_origin c block (success known_block) = panic
  insert_at_origin c block (success (canon_chain number)) = insert_canon c block
  insert_at_origin c block (success (side_chain_becoming_canon_chain origin)) =
      insert_becoming_canon c block origin
  insert_at_origin c block (success (side_chain origin)) = insert_side c block

  unfoldable pub insert_best_block :
      Chain Pk Int (BlockChainDatabase kv) → IndexedBlock Pk Int → Inserted kv
  unfolding insert_at_origin
  insert_best_block c block = do
    best_hash ← block_hash c.storage c.storage.best_block.number
    assert_is c.storage.best_block.hash best_hash
        (block_origin c.storage block.header >>= λ origin. insert_at_origin c block origin)
