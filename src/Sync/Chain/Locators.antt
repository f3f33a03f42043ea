-- ===== src/Sync/Chain/Locators.antt =====
-- The block locator of `Chain`: hashes at ever larger steps down the queues and the stored chain. Each
-- loop runs on fuel, and `none` is what it gives when the fuel is used up.
use rust_randchain_prototype.Prelude.{
  ℕ, zero, suc, ◌+◌, ◌-◌, ◌*◌, ◌%◌, ◌^◌, Option, none, some, List, [], ◌∷◌, ◌++◌, ltb, leb, ◌==◌,
  if◌then◌else◌, length, H256, Run, ok, ◌>>=◌, expect,
}
use rust_randchain_prototype.Blocks.{StoreReader}
use rust_randchain_prototype.Sync.QueueChain
use rust_randchain_prototype.Sync.Chain.{Chain}

-- `if hashes.len() >= 10 { step <<= 1; }`; bits that are shifted out of a `u32` are gone.
abbrev pub next_step : ℕ → List H256 → ℕ
next_step step hashes = if leb 10 (length hashes) then (step * 2) % 2 ^ 32 else step

-- `storage_index`
abbrev pub storage_index : ℕ → ℕ → ℕ
storage_index best local_index = if ltb best local_index then 0 else best - local_index

module _ {Pk Int State : Type 0} where
  -- The loop over the queues: the hashes, and the answer of the method.
  unfoldable pub queue_loop :
      ℕ → Chain Pk Int State → ℕ → ℕ → List H256 → Run (Option (List H256 × ℕ × ℕ))
  queue_loop zero c index step hashes = ok none
  queue_loop (suc fuel) c index step hashes = do
    block_hash ← QueueChain.index c.hash_chain index
    let pushed : List H256 = hashes ++ (block_hash ∷ [])
    let step' : ℕ = next_step step pushed
    let rest : Run (Option (List H256 × ℕ × ℕ)) = queue_loop fuel c (index - step') step' pushed
    (if ltb index step' then ok (some (pushed, step' - index - 1, step')) else rest)

  unfoldable pub block_locator_hashes_for_queue :
      Chain Pk Int State → Run (Option (List H256 × ℕ × ℕ))
  unfolding queue_loop
  block_locator_hashes_for_queue c =
      let queue_len : ℕ = QueueChain.len c.hash_chain in
      if queue_len == 0 then ok (some ([], 0, 1)) else queue_loop queue_len c (queue_len - 1) 1 []

module _ {Pk Int : Type 0} (store : StoreReader Pk Int) where
  -- The loop over the stored chain.
  unfoldable pub block_locator_hashes_for_storage :
      ℕ → Chain Pk Int store.State → ℕ → ℕ → List H256 → Run (Option (List H256))
  block_locator_hashes_for_storage zero c index step hashes = ok none
  block_locator_hashes_for_storage (suc fuel) c index step hashes = do
    block_hash ← expect (store.block_hash c.storage index)
    let pushed : List H256 = hashes ++ (block_hash ∷ [])
    let step' : ℕ = next_step step pushed
    let rest : Run (Option (List H256)) =
        block_locator_hashes_for_storage fuel c (index - step') step' pushed
    (if ltb index step'
        then ok (some (if index == 0 then pushed else pushed ++ (c.genesis_block_hash ∷ [])))
        else rest)

  unfoldable pub after_queue :
      Chain Pk Int store.State → Option (List H256 × ℕ × ℕ) → Run (Option (List H256))
  unfolding block_locator_hashes_for_storage
  after_queue c none = ok none
  after_queue c (some (hashes, local_index, step)) =
      let index : ℕ = storage_index c.best_storage_block.number local_index in
      block_locator_hashes_for_storage (index + 1) c index step hashes

  unfoldable pub block_locator_hashes : Chain Pk Int store.State → Run (Option (List H256))
  unfolding block_locator_hashes_for_queue after_queue
  block_locator_hashes c = do found ← block_locator_hashes_for_queue c; after_queue c found
