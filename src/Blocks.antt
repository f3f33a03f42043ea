-- ===== src/Blocks.antt =====
-- The block types of the crate `chain`. The types of the crates `ecvrf` (`VrfPk`) and `rug`
-- (`Integer`) are parameters.
use rust_randchain_prototype.Prelude.{ℕ, H256, Bool, Option, List, [], ◌∷◌}

-- chain/src/block_header.rs; `bits` is the `u32` inside `Compact`.
pub record BlockHeader (VrfPk Integer : Type 0) : Type 0 where
  pub version : ℕ
  pub previous_header_hash : H256
  pub time : ℕ
  pub bits : ℕ
  pub pubkey : VrfPk
  pub iterations : ℕ
  pub randomness : Integer

-- chain/src/indexed_header.rs
pub record IndexedBlockHeader (VrfPk Integer : Type 0) : Type 0 where
  pub hash : H256
  pub raw : BlockHeader VrfPk Integer

abbrev pub hashes : {Pk Int : Type 0} → List (IndexedBlockHeader Pk Int) → List H256
hashes [] = []
hashes (x ∷ xs) = x.hash ∷ hashes xs

-- storage/src/block_ref.rs; the constructors stand for `BlockRef::Number` and `BlockRef::Hash`.
pub data BlockRef : Type 0 where
  by_number : ℕ → BlockRef
  by_hash : H256 → BlockRef

-- storage/src/best_block.rs
pub record BestBlock : Type 0 where
  pub number : ℕ
  pub hash : H256

-- What the synchronization reads of a storage: the trait methods of storage/src/block_provider.rs and
-- storage/src/store.rs, over some state of the storage.
pub record StoreReader (VrfPk Integer : Type 0) : Type 1 where
  pub State : Type 0
  pub best_block : State → BestBlock
  pub block_hash : State → ℕ → Option H256
  pub block_number : State → H256 → Option ℕ
  pub block_header : State → BlockRef → Option (IndexedBlockHeader VrfPk Integer)
  pub contains_block : State → BlockRef → Bool

-- chain/src/indexed_block.rs; `vdf::Proof` is a list of the `rug` integers.
pub record IndexedBlock (VrfPk Integer : Type 0) : Type 0 where
  pub header : IndexedBlockHeader VrfPk Integer
  pub proof : List Integer
