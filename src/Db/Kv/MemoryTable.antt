-- ===== src/Db/Kv/MemoryTable.antt =====
-- The database in memory is a reliable one.
use rust_randchain_prototype.Prelude.{
  ℕ, H256, ◌≡◌, refl, sym, ap, ◌∙◌, Bool, true, false, Option, none, some, List, [], ◌∷◌, ◌==◌,
  if◌then◌else◌, Distinct,
}
use rust_randchain_prototype.Prelude.HashMap
use rust_randchain_prototype.Prelude.HashMap.{keys, get-insert, keys-insert-Distinct}
use rust_randchain_prototype.Db.Kv.Transaction.{
  Text, Bytes, Key, KeyValue, Value, Operation, KeyState, map, into_option,
}
use rust_randchain_prototype.Db.Kv.Memory.{
  InnerDatabase, unwrap_or_default, write_operation, write_operations, state_of, MemoryDatabase,
}
use rust_randchain_prototype.Db.Kv.Reliable.{after_one, after, IsReliable, KeysDistinct}

-- A state in memory before a table.
abbrev pub over : {V : Type 0} → KeyState V → Option V → Option V
over (KeyState.insert v) below = some v
over KeyState.delete below = none
over KeyState.unknown below = below

pub over-none : {V : Type 0} (state : KeyState V) → over state none ≡ into_option state
over-none (KeyState.insert v) = refl
over-none KeyState.delete = refl
over-none KeyState.unknown = refl

module _ {B : Type 0} where
  column_put :
      {V : Type 0} (f : V → Value B) (m : List (ℕ × KeyState V)) (j k : ℕ) (state : KeyState V)
      (below : Option (Value B))
      → over (map f (unwrap_or_default (HashMap.get (HashMap.insert m j state) k))) below ≡ (
          if j == k
          then over (map f state) below
          else over (map f (unwrap_or_default (HashMap.get m k))) below)
  column_put f m j k state below =
      ap (λ o. over (map f (unwrap_or_default o)) below) (get-insert m j state k) ∙ go (j == k)
    where
      go :
          (test : Bool)
          → over (map f (unwrap_or_default (if test then some state else HashMap.get m k))) below
            ≡ (if test
                then over (map f state) below
                else over (map f (unwrap_or_default (HashMap.get m k))) below)
      go true = refl
      go false = refl

  write_operation-state :
      (m : InnerDatabase B) (op : Operation B) (k : Key) (below : Option (Value B))
      → over (state_of (write_operation m op) k) below ≡ after_one op k (over (state_of m k) below)
  unfolding write_operation state_of
  write_operation-state m (Operation.insert (KeyValue.meta j v)) (Key.meta k) below =
      column_put Value.meta m.meta j k (KeyState.insert v) below
  write_operation-state m (Operation.insert (KeyValue.block_hash j v)) (Key.block_hash k) below =
      column_put Value.block_hash m.block_hash j k (KeyState.insert v) below
  write_operation-state m (Operation.insert (KeyValue.block j v)) (Key.block k) below =
      column_put Value.block m.block j k (KeyState.insert v) below
  write_operation-state m (Operation.insert (KeyValue.block_number j v)) (Key.block_number k)
        below =
      column_put Value.block_number m.block_number j k (KeyState.insert v) below
  write_operation-state m (Operation.insert (KeyValue.configuration j v)) (Key.configuration k)
        below =
      column_put Value.configuration m.configuration j k (KeyState.insert v) below
  write_operation-state m (Operation.delete (Key.meta j)) (Key.meta k) below =
      column_put Value.meta m.meta j k KeyState.delete below
  write_operation-state m (Operation.delete (Key.block_hash j)) (Key.block_hash k) below =
      column_put Value.block_hash m.block_hash j k KeyState.delete below
  write_operation-state m (Operation.delete (Key.block j)) (Key.block k) below =
      column_put Value.block m.block j k KeyState.delete below
  write_operation-state m (Operation.delete (Key.block_number j)) (Key.block_number k) below =
      column_put Value.block_number m.block_number j k KeyState.delete below
  write_operation-state m (Operation.delete (Key.configuration j)) (Key.configuration k) below =
      column_put Value.configuration m.configuration j k KeyState.delete below
  write_operation-state m _ _ below = refl

  pub write_operations-state :
      (ops : List (Operation B)) (m : InnerDatabase B) (k : Key) (below : Option (Value B))
      → over (state_of (write_operations m ops) k) below ≡ after ops k (over (state_of m k) below)
  unfolding write_operations
  write_operations-state [] m k below = refl
  write_operations-state (op ∷ ops) m k below =
      write_operations-state ops (write_operation m op) k below
      ∙ ap (after ops k) (write_operation-state m op k below)

  with_meta :
      {m : InnerDatabase B} {column : List (Text × KeyState Bytes)}
      → KeysDistinct m
      → Distinct (keys column)
      → KeysDistinct (record m { meta = column })
  with_meta d fresh = record {
    meta = fresh;
    block_hash = d.block_hash;
    block = d.block;
    block_number = d.block_number;
    configuration = d.configuration;
  }

  with_block_hash :
      {m : InnerDatabase B} {column : List (ℕ × KeyState H256)}
      → KeysDistinct m
      → Distinct (keys column)
      → KeysDistinct (record m { block_hash = column })
  with_block_hash d fresh = record {
    meta = d.meta;
    block_hash = fresh;
    block = d.block;
    block_number = d.block_number;
    configuration = d.configuration;
  }

  with_block :
      {m : InnerDatabase B} {column : List (H256 × KeyState B)}
      → KeysDistinct m
      → Distinct (keys column)
      → KeysDistinct (record m { block = column })
  with_block d fresh = record {
    meta = d.meta;
    block_hash = d.block_hash;
    block = fresh;
    block_number = d.block_number;
    configuration = d.configuration;
  }

  with_block_number :
      {m : InnerDatabase B} {column : List (H256 × KeyState ℕ)}
      → KeysDistinct m
      → Distinct (keys column)
      → KeysDistinct (record m { block_number = column })
  with_block_number d fresh = record {
    meta = d.meta;
    block_hash = d.block_hash;
    block = d.block;
    block_number = fresh;
    configuration = d.configuration;
  }

  with_configuration :
      {m : InnerDatabase B} {column : List (Text × KeyState Bytes)}
      → KeysDistinct m
      → Distinct (keys column)
      → KeysDistinct (record m { configuration = column })
  with_configuration d fresh = record {
    meta = d.meta;
    block_hash = d.block_hash;
    block = d.block;
    block_number = d.block_number;
    configuration = fresh;
  }

  write_operation-KeysDistinct :
      (m : InnerDatabase B) (op : Operation B)
      → KeysDistinct m
      → KeysDistinct (write_operation m op)
  unfolding write_operation
  write_operation-KeysDistinct m (Operation.insert (KeyValue.meta j v)) d =
      with_meta d (keys-insert-Distinct m.meta j (KeyState.insert v) d.meta)
  write_operation-KeysDistinct m (Operation.insert (KeyValue.block_hash j v)) d =
      with_block_hash d (keys-insert-Distinct m.block_hash j (KeyState.insert v) d.block_hash)
  write_operation-KeysDistinct m (Operation.insert (KeyValue.block j v)) d =
      with_block d (keys-insert-Distinct m.block j (KeyState.insert v) d.block)
  write_operation-KeysDistinct m (Operation.insert (KeyValue.block_number j v)) d =
      with_block_number d (keys-insert-Distinct m.block_number j (KeyState.insert v) d.block_number)
  write_operation-KeysDistinct m (Operation.insert (KeyValue.configuration j v)) d =
      with_configuration d
        (keys-insert-Distinct m.configuration j (KeyState.insert v) d.configuration)
  write_operation-KeysDistinct m (Operation.delete (Key.meta j)) d =
      with_meta d (keys-insert-Distinct m.meta j KeyState.delete d.meta)
  write_operation-KeysDistinct m (Operation.delete (Key.block_hash j)) d =
      with_block_hash d (keys-insert-Distinct m.block_hash j KeyState.delete d.block_hash)
  write_operation-KeysDistinct m (Operation.delete (Key.block j)) d =
      with_block d (keys-insert-Distinct m.block j KeyState.delete d.block)
  write_operation-KeysDistinct m (Operation.delete (Key.block_number j)) d =
      with_block_number d (keys-insert-Distinct m.block_number j KeyState.delete d.block_number)
  write_operation-KeysDistinct m (Operation.delete (Key.configuration j)) d =
      with_configuration d (keys-insert-Distinct m.configuration j KeyState.delete d.configuration)

  pub write_operations-KeysDistinct :
      (ops : List (Operation B)) (m : InnerDatabase B)
      → KeysDistinct m
      → KeysDistinct (write_operations m ops)
  unfolding write_operations
  write_operations-KeysDistinct [] m d = d
  write_operations-KeysDistinct (op ∷ ops) m d =
      write_operations-KeysDistinct ops (write_operation m op) (write_operation-KeysDistinct m op d)

-- What a database in memory answers.
abbrev pub memory_table : {B : Type 0} → InnerDatabase B → Key → Option (Value B)
memory_table m k = into_option (state_of m k)

-- A database in memory keeps every transaction, operation by operation, and answers with what the last
-- operation on a key left; no write fails.
pub MemoryDatabase-IsReliable :
    (B : Type 0) → IsReliable (MemoryDatabase B) KeysDistinct memory_table
MemoryDatabase-IsReliable B = record {
  get_table = λ m k d. (state_of m k, refl, refl);
  write_table = λ m tx d. (
    write_operations m tx.operations,
    refl,
    write_operations-KeysDistinct tx.operations m d,
    λ k.
        sym (over-none (state_of (write_operations m tx.operations) k))
        ∙ write_operations-state tx.operations m k none
        ∙ ap (after tx.operations k) (over-none (state_of m k)),
  );
}
