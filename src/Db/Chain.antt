-- ===== src/Db/Chain.antt =====
-- `BlockChainDatabase` of db/src/block_chain_db.rs: a chain of blocks in a key-value store. Its methods
-- take `&self`; the state is the best block, which a lock guards, and the store. What the methods
-- read of a store that fails is a panic.
pub mod Writes
pub mod Origin
pub mod Forks
pub mod Ledger
pub mod LedgerSteps
pub mod Routes
pub mod Refinement
pub mod Reach
use rust_randchain_prototype.Prelude.{
  ℕ, Bool, false, Option, none, some, is_some, List, H256, Result, success, failure, Run, ok, panic,
  ◌>>=◌, expect,
}
use rust_randchain_prototype.Blocks.{
  BestBlock, BlockRef, by_number, by_hash, IndexedBlockHeader, IndexedBlock,
}
use rust_randchain_prototype.Serialization.Reader
use rust_randchain_prototype.Serialization.Impls.{
  LittleEndian, serialize_u32, deserialize_u32, deserialize_h256,
}
use rust_randchain_prototype.Serialization.Headers.{Foreign, Block, serialize_header}
use rust_randchain_prototype.Db.Kv.Transaction.{
  Text, Bytes, Key, Value, KeyState, into_option, as_meta, as_block, as_block_hash, as_block_number,
  KeyValueDatabase,
}

-- storage/src/error.rs
pub data Error : Type 0 where
  database_error : Bytes → Error
  cannot_canonize cannot_decanonize unknown_parent ancient_fork : Error

abbrev pub key_best_block_number : Text
key_best_block_number = 38926952921739898269457271035723603207522

abbrev pub key_best_block_hash : Text
key_best_block_hash = 542339067825602000860179791967642978

abbrev pub and_then : {A C : Type 0} → Option A → (A → Option C) → Option C
and_then none f = none
and_then (some a) f = f a

-- `BestBlock::default()`
abbrev pub no_block : BestBlock
no_block = record { number = 0; hash = 0 }

-- `deserialize(..).expect(..)`
abbrev pub expect_success : {A E : Type 0} → Result A E → Run A
expect_success (failure e) = panic
expect_success (success a) = ok a

-- The `match` of `read_best_block`.
unfoldable pub best_block_of :
    LittleEndian
    → Result (Option Bytes) Bytes
    → Result (Option Bytes) Bytes
    → Run (Option BestBlock)
best_block_of order (success none) (success none) = ok none
best_block_of order (success (some number)) (success (some hash)) = do
  best_number ← expect_success (Reader.deserialize (deserialize_u32 order) number)
  best_hash ← expect_success (Reader.deserialize deserialize_h256 hash)
  ok (some (record { number = best_number; hash = best_hash }))
best_block_of order number hash = panic

abbrev pub unwrap_or_default : Option BestBlock → BestBlock
unwrap_or_default none = no_block
unwrap_or_default (some best) = best

module _ {Pk Int : Type 0} where
  pub record BlockChainDatabase (kv : KeyValueDatabase (Block Pk Int)) : Type 0 where
    pub best_block : BestBlock
    pub db : kv.State

  -- What the two `map`s of `read_best_block` make of an answer of the store.
  abbrev pub meta_of : Result (KeyState (Value (Block Pk Int))) Bytes → Result (Option Bytes) Bytes
  meta_of (failure e) = failure e
  meta_of (success state) = success (and_then (into_option state) as_meta)

  module _ (order : LittleEndian) where
    unfoldable pub read_best_block :
        (kv : KeyValueDatabase (Block Pk Int)) → kv.State → Run (Option BestBlock)
    unfolding best_block_of
    read_best_block kv db =
        best_block_of order (meta_of (kv.get db (Key.meta key_best_block_number)))
          (meta_of (kv.get db (Key.meta key_best_block_hash)))

    -- `open`, a word of the language.
    unfoldable pub open_db :
        (kv : KeyValueDatabase (Block Pk Int)) → kv.State → Run (BlockChainDatabase kv)
    unfolding read_best_block
    open_db kv db = do
      best ← read_best_block kv db
      ok (record { best_block = unwrap_or_default best; db = db })

  -- `.expect("db value to be fine").into_option()`
  abbrev pub value_or_panic :
      Result (KeyState (Value (Block Pk Int))) Bytes → Run (Option (Value (Block Pk Int)))
  value_or_panic (failure e) = panic
  value_or_panic (success state) = ok (into_option state)

  abbrev pub header_under : H256 → Option (Block Pk Int) → Option (IndexedBlockHeader Pk Int)
  header_under hash none = none
  header_under hash (some b) = some (record { hash = hash; raw = b.block_header })

  abbrev pub block_under : H256 → Option (Block Pk Int) → Option (IndexedBlock Pk Int)
  block_under hash none = none
  block_under hash (some b) =
      some (record { header = record { hash = hash; raw = b.block_header }; proof = b.proof })

  module _ {kv : KeyValueDatabase (Block Pk Int)} where
    unfoldable pub get : BlockChainDatabase kv → Key → Run (Option (Value (Block Pk Int)))
    get c key = value_or_panic (kv.get c.db key)

    unfoldable pub block_number : BlockChainDatabase kv → H256 → Run (Option ℕ)
    unfolding get
    block_number c hash = do
      value ← get c (Key.block_number hash)
      ok (and_then value as_block_number)

    unfoldable pub block_hash : BlockChainDatabase kv → ℕ → Run (Option H256)
    unfolding get
    block_hash c number = do
      value ← get c (Key.block_hash number)
      ok (and_then value as_block_hash)

    unfoldable pub resolve_hash : BlockChainDatabase kv → BlockRef → Run (Option H256)
    unfolding block_hash
    resolve_hash c (by_number n) = block_hash c n
    resolve_hash c (by_hash h) = ok (some h)

    -- What `block_header` and `block` read under a hash.
    unfoldable pub block_at : BlockChainDatabase kv → H256 → Run (Option (Block Pk Int))
    unfolding get
    block_at c hash = do value ← get c (Key.block hash); ok (and_then value as_block)

    unfoldable pub block_header :
        BlockChainDatabase kv → BlockRef → Run (Option (IndexedBlockHeader Pk Int))
    unfolding resolve_hash block_at
    block_header c ref = do
      resolved ← resolve_hash c ref
      elim resolved [
        | none ↦ ok none
        | some hash ↦ block_at c hash >>= λ found. ok (header_under hash found)
      ]

    unfoldable pub block : BlockChainDatabase kv → BlockRef → Run (Option (IndexedBlock Pk Int))
    unfolding resolve_hash block_at
    block c ref = do
      resolved ← resolve_hash c ref
      elim resolved [
        | none ↦ ok none
        | some hash ↦ block_at c hash >>= λ found. ok (block_under hash found)
      ]

    unfoldable pub contains_block : BlockChainDatabase kv → BlockRef → Run Bool
    unfolding resolve_hash get
    contains_block c ref = do
      resolved ← resolve_hash c ref
      elim resolved [
        | none ↦ ok false
        | some hash ↦ get c (Key.block hash) >>= λ value. ok (is_some value)
      ]

    -- `Store::best_header`
    unfoldable pub best_header : BlockChainDatabase kv → Run (IndexedBlockHeader Pk Int)
    unfolding block_header
    best_header c = do found ← block_header c (by_hash c.best_block.hash); expect found

    -- `block_header_bytes`
    unfoldable pub block_header_bytes :
        LittleEndian → Foreign Pk Int → BlockChainDatabase kv → BlockRef → Run (Option Bytes)
    unfolding block_header
    block_header_bytes order foreign c ref = do
      found ← block_header c ref
      ok (and_then found (λ header. some (serialize_header order foreign header.raw)))
