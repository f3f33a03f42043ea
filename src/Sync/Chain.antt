-- ===== src/Sync/Chain.antt =====
-- `Chain` of sync/src/synchronization_chain.rs: the stored chain, the queues of hashes on their way
-- into it, and the headers that are known of them. The storage is read through an interface;
-- Insertion writes to the database of the crate db.
pub mod Moves
pub mod Forget
pub mod Report
pub mod Locators
pub mod Descent
pub mod Insertion
pub mod Extension
pub mod Reorganization
use rust_randchain_prototype.Prelude.{
  ℕ, zero, suc, ◌+◌, ◌-◌, Bool, Option, none, some, List, [], ◌∷◌, ◌++◌, ltb, leb, ◌==◌,
  if◌then◌else◌, add_u32, H256, Run, ok, panic, ◌>>=◌, expect, contains,
}
use rust_randchain_prototype.Blocks.{
  BlockHeader, IndexedBlockHeader, BlockRef, by_number, by_hash, BestBlock, StoreReader, hashes,
}
use rust_randchain_prototype.Sync.HashQueue.{HashPosition, missing, front, inside}
use rust_randchain_prototype.Sync.QueueChain
use rust_randchain_prototype.Sync.QueueChain.{HashQueueChain}
use rust_randchain_prototype.Sync.BestHeaders
use rust_randchain_prototype.Sync.BestHeaders.{BestHeadersChain}

abbrev pub verifying_queue : ℕ
verifying_queue = 0

abbrev pub requested_queue : ℕ
requested_queue = 1

abbrev pub scheduled_queue : ℕ
scheduled_queue = 2

abbrev pub number_of_queues : ℕ
number_of_queues = 3

pub data BlockState : Type 0 where
  unknown scheduled requested verifying stored dead_end : BlockState

unfoldable pub from_queue_index : ℕ → Run BlockState
from_queue_index i =
    if i == scheduled_queue
    then ok scheduled
    else if i == requested_queue
    then ok requested
    else if i == verifying_queue
    then ok verifying
    else panic

unfoldable pub to_queue_index : BlockState → Run ℕ
to_queue_index scheduled = ok scheduled_queue
to_queue_index requested = ok requested_queue
to_queue_index verifying = ok verifying_queue
to_queue_index unknown = panic
to_queue_index stored = panic
to_queue_index dead_end = panic

pub record Chain (Pk Int State : Type 0) : Type 0 where
  pub genesis_block_hash : H256
  pub best_storage_block : BestBlock
  pub storage : State
  pub hash_chain : HashQueueChain
  pub headers_chain : BestHeadersChain Pk Int
  pub dead_end_blocks : List H256

-- What asks the storage.
module _ {Pk Int : Type 0} (store : StoreReader Pk Int) where
  unfoldable pub new : store.State → Run (Chain Pk Int store.State)
  new storage = do
    genesis ← expect (store.block_hash storage 0)
    queues ← QueueChain.with_number_of_queues number_of_queues
    ok (record {
      genesis_block_hash = genesis;
      best_storage_block = store.best_block storage;
      storage = storage;
      hash_chain = queues;
      headers_chain = BestHeaders.new Pk Int (store.best_block storage).hash;
      dead_end_blocks = [];
    })

  unfoldable pub block_hash : Chain Pk Int store.State → ℕ → Option H256
  block_hash c number =
      if leb number c.best_storage_block.number
      then store.block_hash c.storage number
      else QueueChain.at c.hash_chain (number - c.best_storage_block.number)

  unfoldable pub block_number : Chain Pk Int store.State → H256 → Option ℕ
  block_number c hash = elim (store.block_number c.storage hash) [
    | some number ↦ some number
    | none ↦ elim (BestHeaders.height c.headers_chain hash) [
      | none ↦ none
      | some p ↦ some (add_u32 (add_u32 c.best_storage_block.number p) 1)
    ]
  ]

  unfoldable pub block_header_by_number :
      Chain Pk Int store.State → ℕ → Option (IndexedBlockHeader Pk Int)
  block_header_by_number c number =
      if leb number c.best_storage_block.number
      then store.block_header c.storage (by_number number)
      else BestHeaders.at c.headers_chain (number - c.best_storage_block.number)

  unfoldable pub block_header_by_hash :
      Chain Pk Int store.State → H256 → Option (IndexedBlockHeader Pk Int)
  block_header_by_hash c hash = elim (store.block_header c.storage (by_hash hash)) [
    | some header ↦ some header
    | none ↦ BestHeaders.by_hash c.headers_chain hash
  ]

  unfoldable pub block_header :
      Chain Pk Int store.State → BlockRef → Option (IndexedBlockHeader Pk Int)
  block_header c (by_hash hash) = block_header_by_hash c hash
  block_header c (by_number n) = block_header_by_number c n

  unfoldable pub block_state : Chain Pk Int store.State → H256 → Run BlockState
  unfolding from_queue_index
  block_state c hash = elim (QueueChain.contains_in c.hash_chain hash) [
    | some i ↦ from_queue_index i
    | none ↦
        if store.contains_block c.storage (by_hash hash)
        then ok stored
        else if contains c.dead_end_blocks hash
        then ok dead_end
        else ok unknown
  ]

module _ {Pk Int State : Type 0} where
  unfoldable pub length_of_blocks_state : Chain Pk Int State → BlockState → Run ℕ
  unfolding to_queue_index
  length_of_blocks_state c stored = ok (add_u32 c.best_storage_block.number 1)
  length_of_blocks_state c state = do i ← to_queue_index state; QueueChain.len_of c.hash_chain i

  unfoldable pub best_n_of_blocks_state : Chain Pk Int State → BlockState → ℕ → Run (List H256)
  best_n_of_blocks_state c scheduled n = QueueChain.front_n_at c.hash_chain scheduled_queue n
  best_n_of_blocks_state c requested n = QueueChain.front_n_at c.hash_chain requested_queue n
  best_n_of_blocks_state c verifying n = QueueChain.front_n_at c.hash_chain verifying_queue n
  best_n_of_blocks_state c state n = panic

  unfoldable pub best_block : Chain Pk Int State → Run BestBlock
  best_block c = do
    last ← QueueChain.back c.hash_chain
    ok (elim last [
      | some hash ↦ record {
        number = add_u32 c.best_storage_block.number (QueueChain.len c.hash_chain);
        hash = hash;
      }
      | none ↦ c.best_storage_block
    ])

  unfoldable pub best_block_header : Chain Pk Int State → Run BestBlock
  best_block_header c =
      let best = (BestHeaders.information c.headers_chain).best in
      if best == 0 then ok c.best_storage_block else do
        header ← expect (BestHeaders.at c.headers_chain (best - 1))
        ok (record { number = add_u32 c.best_storage_block.number best; hash = header.hash })

  unfoldable pub schedule_blocks_headers :
      Chain Pk Int State → List (IndexedBlockHeader Pk Int) → Run (Chain Pk Int State)
  schedule_blocks_headers c headers = do
    queues ← QueueChain.push_back_n_at c.hash_chain scheduled_queue (hashes headers)
    known ← BestHeaders.insert_n c.headers_chain headers
    ok (record c { hash_chain = queues; headers_chain = known })

  unfoldable pub request_blocks_hashes :
      Chain Pk Int State → ℕ → Run (List H256 × Chain Pk Int State)
  request_blocks_hashes c n = do
    (hashes, popped) ← QueueChain.pop_front_n_at c.hash_chain scheduled_queue n
    queues ← QueueChain.push_back_n_at popped requested_queue hashes
    ok (hashes, record c { hash_chain = queues })

  unfoldable pub verify_block :
      Chain Pk Int State → IndexedBlockHeader Pk Int → Run (Chain Pk Int State)
  verify_block c header = do
    queues ← QueueChain.push_back_at c.hash_chain verifying_queue header.hash
    known ← BestHeaders.insert c.headers_chain header
    ok (record c { hash_chain = queues; headers_chain = known })

  unfoldable pub verify_blocks :
      Chain Pk Int State → List (IndexedBlockHeader Pk Int) → Run (Chain Pk Int State)
  verify_blocks c [] = ok c
  verify_blocks c (b ∷ blocks) = do c' ← verify_block c b; verify_blocks c' blocks

  unfoldable pub mark_dead_end_block : Chain Pk Int State → H256 → Chain Pk Int State
  mark_dead_end_block c hash =
      if contains c.dead_end_blocks hash
      then c
      else record c { dead_end_blocks = hash ∷ c.dead_end_blocks }

  -- The inner and the outer `match` of `forget_block_leave_header`, on what the queue before answered.
  unfoldable pub forget_scheduled :
      HashPosition
      → HashQueueChain
      → Chain Pk Int State
      → H256
      → Run (HashPosition × Chain Pk Int State)
  forget_scheduled missing queues c hash = do
    (p, queues') ← QueueChain.remove_at queues scheduled_queue hash
    ok (p, record c { hash_chain = queues' })
  forget_scheduled front queues c hash = ok (front, record c { hash_chain = queues })
  forget_scheduled (inside i) queues c hash = ok (inside i, record c { hash_chain = queues })

  unfoldable pub forget_requested :
      HashPosition
      → HashQueueChain
      → Chain Pk Int State
      → H256
      → Run (HashPosition × Chain Pk Int State)
  unfolding forget_scheduled
  forget_requested missing queues c hash = do
    (p, queues') ← QueueChain.remove_at queues requested_queue hash
    forget_scheduled p queues' c hash
  forget_requested front queues c hash = ok (front, record c { hash_chain = queues })
  forget_requested (inside i) queues c hash = ok (inside i, record c { hash_chain = queues })

  unfoldable pub forget_block_leave_header :
      Chain Pk Int State → H256 → Run (HashPosition × Chain Pk Int State)
  unfolding forget_requested
  forget_block_leave_header c hash = do
    (p, queues) ← QueueChain.remove_at c.hash_chain verifying_queue hash
    forget_requested p queues c hash

  unfoldable pub forget_block : Chain Pk Int State → H256 → Run (HashPosition × Chain Pk Int State)
  forget_block c hash = do
    known ← BestHeaders.remove c.headers_chain hash
    forget_block_leave_header (record c { headers_chain = known }) hash

  unfoldable pub forget_blocks : Chain Pk Int State → List H256 → Run (Chain Pk Int State)
  forget_blocks c [] = ok c
  forget_blocks c (hash ∷ hashes) = do (_, c') ← forget_block c hash; forget_blocks c' hashes

  unfoldable pub forget_blocks_leave_header :
      Chain Pk Int State → List H256 → Run (Chain Pk Int State)
  forget_blocks_leave_header c [] = ok c
  forget_blocks_leave_header c (hash ∷ hashes) = do
    (_, c') ← forget_block_leave_header c hash
    forget_blocks_leave_header c' hashes

  unfoldable pub forget_block_with_state_leave_header :
      Chain Pk Int State → H256 → BlockState → Run (HashPosition × Chain Pk Int State)
  forget_block_with_state_leave_header c hash state = do
    i ← to_queue_index state
    (p, queues) ← QueueChain.remove_at c.hash_chain i hash
    ok (p, record c { hash_chain = queues })

  unfoldable pub forget_all_blocks_with_state :
      Chain Pk Int State → BlockState → Run (Chain Pk Int State)
  forget_all_blocks_with_state c state = do
    i ← to_queue_index state
    (hashes, queues) ← QueueChain.remove_all_at c.hash_chain i
    known ← BestHeaders.remove_n c.headers_chain hashes
    ok (record c { hash_chain = queues; headers_chain = known })
