-- ===== src/Db/Kv/Memory.antt =====
-- db/src/kv/memorydb.rs: a map for each column. `drain_transaction` goes over the maps in some order of
-- their keys; a key stands in a map once. The `RwLock` is held for the whole of a method.
use rust_randchain_prototype.Prelude.{ℕ, Option, none, some, List, [], ◌∷◌, ◌++◌, H256, success}
use rust_randchain_prototype.Prelude.HashMap
use rust_randchain_prototype.Db.Kv.Transaction.{
  Text, Bytes, Key, KeyValue, Value, Operation, Transaction, KeyState, map, into_operation,
  KeyValueDatabase,
}

pub record InnerDatabase (B : Type 0) : Type 0 where
  pub meta : List (Text × KeyState Bytes)
  pub block_hash : List (ℕ × KeyState H256)
  pub block : List (H256 × KeyState B)
  pub block_number : List (H256 × KeyState ℕ)
  pub configuration : List (Text × KeyState Bytes)

unfoldable pub empty : (B : Type 0) → InnerDatabase B
empty B = record { meta = []; block_hash = []; block = []; block_number = []; configuration = [] }

abbrev pub unwrap_or_default : {V : Type 0} → Option (KeyState V) → KeyState V
unwrap_or_default none = KeyState.unknown
unwrap_or_default (some state) = state

module _ {B : Type 0} where
  -- The body of the loop of `write`.
  unfoldable pub write_operation : InnerDatabase B → Operation B → InnerDatabase B
  write_operation db (Operation.insert (KeyValue.meta key value)) = record db {
    meta = HashMap.insert db.meta key (KeyState.insert value);
  }
  write_operation db (Operation.insert (KeyValue.block_hash key value)) = record db {
    block_hash = HashMap.insert db.block_hash key (KeyState.insert value);
  }
  write_operation db (Operation.insert (KeyValue.block key value)) = record db {
    block = HashMap.insert db.block key (KeyState.insert value);
  }
  write_operation db (Operation.insert (KeyValue.block_number key value)) = record db {
    block_number = HashMap.insert db.block_number key (KeyState.insert value);
  }
  write_operation db (Operation.insert (KeyValue.configuration key value)) = record db {
    configuration = HashMap.insert db.configuration key (KeyState.insert value);
  }
  write_operation db (Operation.delete (Key.meta key)) = record db {
    meta = HashMap.insert db.meta key KeyState.delete;
  }
  write_operation db (Operation.delete (Key.block_hash key)) = record db {
    block_hash = HashMap.insert db.block_hash key KeyState.delete;
  }
  write_operation db (Operation.delete (Key.block key)) = record db {
    block = HashMap.insert db.block key KeyState.delete;
  }
  write_operation db (Operation.delete (Key.block_number key)) = record db {
    block_number = HashMap.insert db.block_number key KeyState.delete;
  }
  write_operation db (Operation.delete (Key.configuration key)) = record db {
    configuration = HashMap.insert db.configuration key KeyState.delete;
  }

  unfoldable pub write_operations : InnerDatabase B → List (Operation B) → InnerDatabase B
  write_operations db [] = db
  write_operations db (op ∷ ops) = write_operations (write_operation db op) ops

  -- The state under a key.
  unfoldable pub state_of : InnerDatabase B → Key → KeyState (Value B)
  state_of db (Key.meta key) = map Value.meta (unwrap_or_default (HashMap.get db.meta key))
  state_of db (Key.block_hash key) =
      map Value.block_hash (unwrap_or_default (HashMap.get db.block_hash key))
  state_of db (Key.block key) = map Value.block (unwrap_or_default (HashMap.get db.block key))
  state_of db (Key.block_number key) =
      map Value.block_number (unwrap_or_default (HashMap.get db.block_number key))
  state_of db (Key.configuration key) =
      map Value.configuration (unwrap_or_default (HashMap.get db.configuration key))

  -- `flat_map` of `into_operation` over one map.
  unfoldable pub drain_map :
      {V : Type 0} → (ℕ → V → KeyValue B) → (ℕ → Key) → List (ℕ × KeyState V) → List (Operation B)
  drain_map insertion deletion [] = []
  drain_map insertion deletion ((key, state) ∷ rest) =
      elim (into_operation key insertion deletion state) [
        | none ↦ drain_map insertion deletion rest
        | some op ↦ op ∷ drain_map insertion deletion rest
      ]

  -- The transaction, and what is left.
  unfoldable pub drain_transaction : InnerDatabase B → Transaction B × InnerDatabase B
  unfolding drain_map
  drain_transaction db = (
    record {
      operations =
          drain_map KeyValue.meta Key.meta db.meta
          ++ (drain_map KeyValue.block_hash Key.block_hash db.block_hash
              ++ (drain_map KeyValue.block Key.block db.block
                  ++ (drain_map KeyValue.block_number Key.block_number db.block_number
                      ++ drain_map KeyValue.configuration Key.configuration db.configuration)));
    },
    empty B,
  )

abbrev pub MemoryDatabase : (B : Type 0) → KeyValueDatabase B
MemoryDatabase B = record {
  State = InnerDatabase B;
  write = λ db t. (success tt, write_operations db t.operations);
  get = λ db key. success (state_of db key);
}
