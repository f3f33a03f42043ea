-- ===== src/Sync/Chain/Descent.antt =====
-- The loops of the block locator end, and what they collect.
use rust_randchain_prototype.Prelude.{
  ℕ, zero, suc, ◌+◌, ◌-◌, ◌*◌, ◌^◌, ◌<◌, ◌≤◌, ◌≡◌, refl, sym, ap, subst, ◌∙◌, true, Bool-cases, inl,
  inr, Option, some, List, [], ◌∷◌, ◌++◌, append_assoc, ltb, ◌==◌, if◌then◌else◌, arith, length,
  get_elem?, ◌⊎◌, H256, ok,
}
use rust_randchain_prototype.Blocks.{StoreReader}
use rust_randchain_prototype.Sync.QueueChain
use rust_randchain_prototype.Sync.QueueChain.Order.{flat, len-at-flat}
use rust_randchain_prototype.Sync.Chain.{Chain}
use rust_randchain_prototype.Sync.Chain.Locators.{
  next_step, queue_loop, block_locator_hashes_for_queue, block_locator_hashes_for_storage,
  storage_index, after_queue, block_locator_hashes,
}

-- The hashes of a locator from a number down: at ever smaller numbers, the genesis block at the end.
pub data Locator (hash_of : ℕ → Option H256) (genesis : H256) : ℕ → List H256 → Type 0 where
  at_genesis : {h : H256} → hash_of 0 ≡ some h → Locator hash_of genesis 0 (h ∷ [])
  last :
      {i : ℕ} {h : H256} → 0 < i → hash_of i ≡ some h → Locator hash_of genesis i (h ∷ genesis ∷ [])
  further :
      {i j : ℕ} {h : H256} {hashes : List H256}
      → hash_of i ≡ some h
      → j < i
      → Locator hash_of genesis j hashes
      → Locator hash_of genesis i (h ∷ hashes)

-- Hashes at ever smaller numbers.
pub data Falls (hash_of : ℕ → Option H256) : ℕ → List H256 → Type 0 where
  stops : {i : ℕ} {h : H256} → hash_of i ≡ some h → Falls hash_of i (h ∷ [])
  falls :
      {i j : ℕ} {h : H256} {hashes : List H256}
      → hash_of i ≡ some h
      → j < i
      → Falls hash_of j hashes
      → Falls hash_of i (h ∷ hashes)

never : {A : Type 0} (n : ℕ) → n < 0 → A
never n less = ground arith

zero_of : (n : ℕ) → (n == 0) ≡ true → n ≡ 0
zero_of n e = ground arith

-- A step is positive, and grows without leaving the `u32` as long as twice the step and the index do not.
next_step_lt :
    (index step : ℕ) (hashes : List H256)
    → 0 < step
    → index + 2 * step < 2 ^ 32
    → (0 < next_step step hashes) × (next_step step hashes ≤ 2 * step)
next_step_lt index step hashes positive fits = ground arith

module _ {Pk Int State : Type 0} where
  -- The loop over the queues ends in the same way; the step it hands on is bounded by where it began.
  queue_loop-Falls :
      (fuel : ℕ) (c : Chain Pk Int State) (index step : ℕ) (hashes : List H256)
      → index < fuel
      → 0 < step
      → index + 2 * step < 2 ^ 32
      → ((i : ℕ) → i ≤ index → (h : H256) × (QueueChain.at c.hash_chain i ≡ some h))
      → (found : List H256) × (local_index : ℕ) × (last_step : ℕ) × (queue_loop fuel c index step
            hashes
          ≡ ok (some (hashes ++ found, local_index, last_step)))
        × Falls (QueueChain.at c.hash_chain) index found
        × (0 < last_step)
        × (last_step ≤ index + 2 * step)
  unfolding queue_loop QueueChain.index
  queue_loop-Falls zero c index step hashes enough positive fits held = never index enough
  queue_loop-Falls (suc fuel) c index step hashes enough positive fits held =
      let (h, is_h) = held index (omega arith) in
      let pushed : List H256 = hashes ++ (h ∷ []) in
      let step' : ℕ = next_step step pushed in
      let (positive', bounded) = next_step_lt index step pushed positive fits in
      elim (Bool-cases (ltb index step')) [
        | inl ends ↦ (
          h ∷ [],
          step' - index - 1,
          step',
          rw (is_h, ends) refl,
          stops is_h,
          positive',
          omega arith,
        )
        | inr goes ↦
            let (found, local_index, last_step, rest, way, last_positive, small) =
              queue_loop-Falls fuel c (index - step') step' pushed (ground arith) positive'
                (ground arith) (λ i below. held i (ground arith)) in
            (
              h ∷ found,
              local_index,
              last_step,
              rw (is_h, goes, rest)
                  (ap (λ hs. ok (some (hs, local_index, last_step)))
                    (append_assoc hashes (h ∷ []) found)),
              falls is_h (ground arith) way,
              last_positive,
              ground arith,
            )
      ]

module _ {Pk Int : Type 0} (store : StoreReader Pk Int) where
  -- With as much fuel as the index, and one more, the loop over a stored chain ends.
  pub storage-Locator :
      (fuel : ℕ) (c : Chain Pk Int store.State) (index step : ℕ) (hashes : List H256)
      → index < fuel
      → 0 < step
      → index + 2 * step < 2 ^ 32
      → ((i : ℕ) → i ≤ index → (h : H256) × (store.block_hash c.storage i ≡ some h))
      → (found : List H256) × (block_locator_hashes_for_storage store fuel c index step hashes
          ≡ ok (some (hashes ++ found)))
        × Locator (store.block_hash c.storage) c.genesis_block_hash index found
  unfolding block_locator_hashes_for_storage
  storage-Locator zero c index step hashes enough positive fits stored = never index enough
  storage-Locator (suc fuel) c index step hashes enough positive fits stored =
      let (h, is_h) = stored index (omega arith) in
      let pushed : List H256 = hashes ++ (h ∷ []) in
      let step' : ℕ = next_step step pushed in
      let (positive', bounded) = next_step_lt index step pushed positive fits in
      elim (Bool-cases (ltb index step')) [
        | inl ends ↦ elim (Bool-cases (index == 0)) [
          | inl at_zero ↦ (
            h ∷ [],
            rw (is_h, ends, at_zero) refl,
            subst
                (λ i.
                  store.block_hash c.storage i ≡ some h
                  → Locator (store.block_hash c.storage) c.genesis_block_hash i (h ∷ []))
                (sym (zero_of index at_zero)) at_genesis is_h,
          )
          | inr above ↦ (
            h ∷ c.genesis_block_hash ∷ [],
            rw (is_h, ends, above)
                (ap (λ hs. ok (some hs))
                  (append_assoc hashes (h ∷ []) (c.genesis_block_hash ∷ []))),
            last (ground arith) is_h,
          )
        ]
        | inr goes ↦
            let (found, rest, locator) =
              storage-Locator fuel c (index - step') step' pushed (ground arith) positive'
                (ground arith) (λ i small. stored i (ground arith)) in
            (
              h ∷ found,
              rw (is_h, goes, rest) (ap (λ hs. ok (some hs)) (append_assoc hashes (h ∷ []) found)),
              further is_h (ground arith) locator,
            )
      ]

get_elem?_within : (xs : List H256) (i : ℕ) → i < length xs → (h : H256) × (get_elem? xs i ≡ some h)
get_elem?_within [] i within = never i within
get_elem?_within (x ∷ xs) zero within = (x, refl)
get_elem?_within (x ∷ xs) (suc i) within = get_elem?_within xs i (omega arith)

module _ {Pk Int State : Type 0} where
  -- The part of the locator that is taken from the queues: the hash at the back first, none if there is
  -- none.
  queue-Falls :
      (c : Chain Pk Int State)
      → 2 * length (flat c.hash_chain.chain) + 2 < 2 ^ 32
      → (found : List H256) × (local_index : ℕ) × (step : ℕ) × (block_locator_hashes_for_queue c
          ≡ ok (some (found, local_index, step)))
        × (((found ≡ []) × (length (flat c.hash_chain.chain) ≡ 0))
            ⊎ Falls (QueueChain.at c.hash_chain) (length (flat c.hash_chain.chain) - 1) found)
        × (0 < step)
        × (step ≤ length (flat c.hash_chain.chain) + 1)
  unfolding block_locator_hashes_for_queue
  queue-Falls c fits =
      let held = length (flat c.hash_chain.chain) in
      let len_is : QueueChain.len c.hash_chain ≡ held =
        (len-at-flat c.hash_chain 0 (omega arith)).0 in
      let started : block_locator_hashes_for_queue c
          ≡ (if held == 0 then ok (some ([], 0, 1)) else queue_loop held c (held - 1) 1 []) =
        ap (λ n. if n == 0 then ok (some ([], 0, 1)) else queue_loop n c (n - 1) 1 []) len_is in
      elim (Bool-cases (held == 0)) [
        | inl none_held ↦ (
          [],
          0,
          1,
          started ∙ rw none_held refl,
          inl (refl, zero_of held none_held),
          omega arith,
          omega arith,
        )
        | inr some_held ↦
            let (found, local_index, step, run, way, positive, small) =
              queue_loop-Falls held c (held - 1) 1 [] (ground arith) (omega arith) (omega arith)
                (λ i below.
                  let (h, is_h) = get_elem?_within (flat c.hash_chain.chain) i (ground arith) in
                  (h, (len-at-flat c.hash_chain i (omega arith)).1 ∙ is_h)) in
            (
              found,
              local_index,
              step,
              started
                  ∙ ap
                      (λ test.
                        if test then ok (some ([], 0, 1)) else queue_loop held c (held - 1) 1 [])
                      some_held
                  ∙ run,
              inr way,
              positive,
              ground arith,
            )
      ]

module _ {Pk Int : Type 0} (store : StoreReader Pk Int) where
  -- The block locator ends without a panic: over a storage that has the hash of each number up to its best
  -- block's, with numbers that leave room in a `u32`. It takes hashes from the queues, from their end
  -- down, and then from the storage, from a number not above the best one down to the genesis block.
  pub block_locator_hashes-Locator :
      (c : Chain Pk Int store.State)
      → c.best_storage_block.number + 2 * length (flat c.hash_chain.chain) + 2 < 2 ^ 32
      → ((i : ℕ)
          → i ≤ c.best_storage_block.number
          → (h : H256) × (store.block_hash c.storage i ≡ some h))
      → (queued : List H256) × (of_storage : List H256) × (top : ℕ) × (block_locator_hashes store c
          ≡ ok (some (queued ++ of_storage)))
        × (((queued ≡ []) × (length (flat c.hash_chain.chain) ≡ 0))
            ⊎ Falls (QueueChain.at c.hash_chain) (length (flat c.hash_chain.chain) - 1) queued)
        × (top ≤ c.best_storage_block.number)
        × Locator (store.block_hash c.storage) c.genesis_block_hash top of_storage
  unfolding block_locator_hashes after_queue
  block_locator_hashes-Locator c fits stored =
      let (queued, local_index, step, run, way, positive, small) = queue-Falls c (omega arith) in
      let top : ℕ = storage_index c.best_storage_block.number local_index in
      let below : top ≤ c.best_storage_block.number = ground arith in
      let (of_storage, rest, locator) =
        storage-Locator store (top + 1) c top step queued (omega arith) positive (omega arith)
          (λ i at_most. stored i (omega arith)) in
      (queued, of_storage, top, rw run rest, way, below, locator)
