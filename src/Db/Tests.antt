-- ===== src/Db/Tests.antt =====
-- A store in memory with a genesis block, 1, a block on it, 2, that is the best one, and another block on
-- it, 3. `VrfPk` and `Integer` are taken as numbers.
mod Runs
use mathlib.Core.Option
use rust_randchain_prototype.Prelude.{
  ℕ, ◌≡◌, ◌≢◌, refl, Option, none, some, List, [], ◌∷◌, ◌++◌, ◌==◌, if◌then◌else◌, Bool, true,
  false, arith, length, reverse, H256, Result, success, failure, Run, ok, inl,
}
use rust_randchain_prototype.Prelude.HashMap
use rust_randchain_prototype.Blocks.{BlockHeader, IndexedBlock, IndexedBlockHeader}
use rust_randchain_prototype.Storage.{BlockOrigin}
use rust_randchain_prototype.Serialization.Impls.{serialize_u32, serialize_h256}
use rust_randchain_prototype.Serialization.Headers.{Block}
use rust_randchain_prototype.Serialization.Tests.{little, little_laws}
use rust_randchain_prototype.Db.Kv.Transaction.{
  Bytes, Key, KeyValue, KeyState, Value, Operation, Transaction, into_option, map,
}
use rust_randchain_prototype.Db.Kv.Memory.{
  InnerDatabase, MemoryDatabase, unwrap_or_default, state_of,
}
use rust_randchain_prototype.Db.Kv.Reliable.{KeysDistinct}
use rust_randchain_prototype.Db.Kv.MemoryTable.{memory_table, MemoryDatabase-IsReliable}
use rust_randchain_prototype.Db.Chain.{
  BlockChainDatabase, Error, key_best_block_number, key_best_block_hash,
}
use rust_randchain_prototype.Db.Chain.Ledger.{Ledger, IsLedger}
use rust_randchain_prototype.Db.Chain.Routes.{SideRoute, joined, aside}
use rust_randchain_prototype.Db.Chain.Refinement.{Holds, Represents}

abbrev pub header_on : H256 → BlockHeader ℕ ℕ
header_on parent = record {
  version = 1;
  previous_header_hash = parent;
  time = 0;
  bits = 0;
  pubkey = 0;
  iterations = 0;
  randomness = 0;
}

abbrev pub block_on : H256 → Block ℕ ℕ
block_on parent = record { block_header = header_on parent; proof = [] }

abbrev pub as_states : {V : Type 0} → List (ℕ × V) → List (ℕ × KeyState V)
as_states [] = []
as_states ((k, v) ∷ m) = (k, KeyState.insert v) ∷ as_states m

-- A map of states that are all inserted reads as the map of the values.
get-as_states :
    {V : Type 0} (f : V → Value (Block ℕ ℕ)) (m : List (ℕ × V)) (k : ℕ)
    → into_option (map f (unwrap_or_default (HashMap.get (as_states m) k)))
      ≡ Option.map f (HashMap.get m k)
unfolding HashMap.get
get-as_states f [] k = refl
get-as_states f ((j, v) ∷ m) k = go (j == k) (get-as_states f m k)
  where
    go :
        (test : Bool)
        → into_option (map f (unwrap_or_default (HashMap.get (as_states m) k)))
          ≡ Option.map f (HashMap.get m k)
        → into_option (
            map f (
              unwrap_or_default
                (if test then some (KeyState.insert v) else HashMap.get (as_states m) k)))
          ≡ Option.map f (if test then some v else HashMap.get m k)
    go true e = refl
    go false e = e

abbrev pub best_entries : List (ℕ × Bytes)
best_entries =
    (key_best_block_number, serialize_u32 little 1) ∷ (key_best_block_hash, serialize_h256 2) ∷ []

abbrev pub block_entries : List (H256 × Block ℕ ℕ)
block_entries = (1, block_on 0) ∷ (2, block_on 1) ∷ (3, block_on 1) ∷ []

abbrev pub store : InnerDatabase (Block ℕ ℕ)
store = record {
  meta = as_states best_entries;
  block_hash = as_states ((1, 2) ∷ (0, 1) ∷ []);
  block = as_states block_entries;
  block_number = as_states ((2, 1) ∷ (1, 0) ∷ []);
  configuration = [];
}

abbrev pub ledger : Ledger (Block ℕ ℕ)
ledger = record { chain = 2 ∷ 1 ∷ []; blocks = HashMap.get block_entries }

abbrev pub database : BlockChainDatabase (MemoryDatabase (Block ℕ ℕ))
database = record { best_block = record { number = 1; hash = 2 }; db = store }

pub store-KeysDistinct : KeysDistinct store
store-KeysDistinct = record {
  meta = ground arith;
  block_hash = ground arith;
  block = ground arith;
  block_number = ground arith;
  configuration = tt;
}

pub store-Holds : Holds little (memory_table store) ledger
unfolding HashMap.get state_of
store-Holds = record {
  hash_at = get-as_states Value.block_hash ((1, 2) ∷ (0, 1) ∷ []);
  number_at = get-as_states Value.block_number ((2, 1) ∷ (1, 0) ∷ []);
  block_at = get-as_states Value.block block_entries;
  meta = inl (refl, refl);
}

pub database-Represents : Represents little KeysDistinct memory_table database ledger
database-Represents = (store-KeysDistinct, refl, store-Holds)

pub ledger-IsLedger : IsLedger ledger
unfolding HashMap.get
ledger-IsLedger = record {
  linked = ((block_on 1, refl, refl), ((block_on 0, refl, refl), tt));
  distinct = ground arith;
  zero_free = refl;
}

-- From block 3 down to the genesis block.
pub route_of_three : SideRoute ledger 3 0 (3 ∷ [])
unfolding HashMap.get
route_of_three = aside (block_on 1) refl refl (joined refl)
