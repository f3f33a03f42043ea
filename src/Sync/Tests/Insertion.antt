-- ===== src/Sync/Tests/Insertion.antt =====
-- `insert_best_block` on the database of the tests of the crate db, and a block locator.
use rust_randchain_prototype.Prelude.{
  ℕ, ◌+◌, ◌-◌, ◌≤◌, ◌⊎◌, ◌≡◌, refl, none, some, Bool, List, [], ◌∷◌, ◌++◌, arith, length, H256,
  success, ok,
}
use rust_randchain_prototype.Prelude.HashMap
use rust_randchain_prototype.Blocks.{IndexedBlock, StoreReader}
use rust_randchain_prototype.Serialization.Tests.{little, little_laws}
use rust_randchain_prototype.Serialization.Headers.{Block}
use rust_randchain_prototype.Db.Kv.Transaction.{KeyValueDatabase}
use rust_randchain_prototype.Db.Kv.Memory.{MemoryDatabase}
use rust_randchain_prototype.Db.Kv.Reliable.{KeysDistinct}
use rust_randchain_prototype.Db.Kv.MemoryTable.{memory_table, MemoryDatabase-IsReliable}
use rust_randchain_prototype.Db.Chain.{BlockChainDatabase}
use rust_randchain_prototype.Db.Chain.Ledger.{with_block}
use rust_randchain_prototype.Db.Chain.Refinement.{Represents}
use rust_randchain_prototype.Db.Chain.Routes.{joined}
use rust_randchain_prototype.Db.Tests.{
  header_on, database, database-Represents, ledger, ledger-IsLedger, route_of_three,
}
use rust_randchain_prototype.Sync.QueueChain
use rust_randchain_prototype.Sync.QueueChain.Order.{flat}
use rust_randchain_prototype.Sync.BestHeaders
use rust_randchain_prototype.Sync.Chain.{Chain}
use rust_randchain_prototype.Sync.Chain.Insertion.{insert_best_block}
use rust_randchain_prototype.Sync.Chain.Extension.{insert_best_block-canon, insert_best_block-side}
use rust_randchain_prototype.Sync.Chain.Reorganization.{insert_best_block-reorganized}
use rust_randchain_prototype.Sync.Chain.Locators.{block_locator_hashes}
use rust_randchain_prototype.Sync.Chain.Descent.{Falls, Locator, block_locator_hashes-Locator}
use rust_randchain_prototype.Sync.Tests.Flight.{flying}

abbrev base : KeyValueDatabase (Block ℕ ℕ)
base = MemoryDatabase (Block ℕ ℕ)

abbrev before : Chain ℕ ℕ (BlockChainDatabase base)
before = record {
  genesis_block_hash = 1;
  best_storage_block = record { number = 1; hash = 2 };
  storage = database;
  hash_chain = record { chain = [] };
  headers_chain = BestHeaders.new ℕ ℕ 2;
  dead_end_blocks = [];
}

abbrev pub block_under : H256 → H256 → IndexedBlock ℕ ℕ
block_under parent hash = record {
  header = record { hash = hash; raw = header_on parent };
  proof = [];
}

insert_best_block-canon_example :
    (c' : Chain ℕ ℕ (BlockChainDatabase base)) × (insert_best_block little before (block_under 2 4)
      ≡ ok (success (record { canonized_blocks_hashes = 4 ∷ [] }), c'))
    × Represents little KeysDistinct memory_table c'.storage
        (record (with_block ledger (block_under 2 4)) { chain = 4 ∷ 2 ∷ 1 ∷ [] })
    × (c'.best_storage_block ≡ record { number = 2; hash = 4 })
unfolding HashMap.get
insert_best_block-canon_example =
    insert_best_block-canon (MemoryDatabase-IsReliable (Block ℕ ℕ)) before ledger (block_under 2 4)
      database-Represents ledger-IsLedger refl refl refl (omega arith) (omega arith)

insert_best_block-reorganized_example :
    (c' : Chain ℕ ℕ (BlockChainDatabase base)) × (insert_best_block little before (block_under 3 4)
      ≡ ok (success (record { canonized_blocks_hashes = 3 ∷ 4 ∷ [] }), c'))
    × Represents little KeysDistinct memory_table c'.storage
        (record (with_block ledger (block_under 3 4)) { chain = 4 ∷ 3 ∷ 1 ∷ [] })
    × (c'.best_storage_block ≡ record { number = 2; hash = 4 })
unfolding HashMap.get
insert_best_block-reorganized_example =
    insert_best_block-reorganized little_laws (MemoryDatabase-IsReliable (Block ℕ ℕ)) before ledger
      (block_under 3 4) database-Represents ledger-IsLedger refl refl (omega arith) refl
      route_of_three (omega arith) refl (omega arith) (omega arith) (omega arith)

insert_best_block-side_example :
    (c' : Chain ℕ ℕ (BlockChainDatabase base)) × (insert_best_block little before (block_under 1 4)
      ≡ ok (success (record { canonized_blocks_hashes = [] }), c'))
    × Represents little KeysDistinct memory_table c'.storage (with_block ledger (block_under 1 4))
    × (c' ≡ record before {
      storage = c'.storage;
      headers_chain = BestHeaders.block_inserted_to_storage before.headers_chain 4 2;
    })
unfolding HashMap.get
insert_best_block-side_example =
    insert_best_block-side (MemoryDatabase-IsReliable (Block ℕ ℕ)) before ledger (block_under 1 4)
      database-Represents ledger-IsLedger refl refl (omega arith) refl (joined refl) (omega arith)
      refl (omega arith) (omega arith)

-- A storage of six blocks.
abbrev six : StoreReader ℕ ℕ
six = record {
  State = ℕ;
  best_block = λ s. record { number = 5; hash = 105 };
  block_hash = λ s i. some (100 + i);
  block_number = λ s h. none;
  block_header = λ s r. none;
  contains_block = λ s r. Bool.false;
}

block_locator_hashes-Locator_example :
    (queued : List H256) × (of_storage : List H256) × (top : ℕ) × (block_locator_hashes six flying
      ≡ ok (some (queued ++ of_storage)))
    × (((queued ≡ []) × (length (flat flying.hash_chain.chain) ≡ 0))
        ⊎ Falls (QueueChain.at flying.hash_chain) (4 - 1) queued)
    × (top ≤ 5)
    × Locator (six.block_hash 0) 9 top of_storage
block_locator_hashes-Locator_example =
    block_locator_hashes-Locator six flying (omega arith) (λ i at_most. (100 + i, refl))
