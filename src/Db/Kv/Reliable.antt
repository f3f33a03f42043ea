-- ===== src/Db/Kv/Reliable.antt =====
-- What a key-value database promises: it is a table, and a transaction changes the table operation by
-- operation. `MemoryDatabase` keeps the promise.
use rust_randchain_prototype.Prelude.{
  ◌≡◌, Option, none, some, List, [], ◌∷◌, if◌then◌else◌, success, Distinct,
}
use rust_randchain_prototype.Prelude.HashMap.{keys}
use rust_randchain_prototype.Db.Kv.Transaction.{
  Key, Value, Operation, Transaction, KeyState, into_option, KeyValueDatabase, same_key, key_of,
  value_of,
}
use rust_randchain_prototype.Db.Kv.Memory.{InnerDatabase, empty}

-- What an operation makes of the value under a key.
abbrev pub after_one : {B : Type 0} → Operation B → Key → Option (Value B) → Option (Value B)
after_one (Operation.insert kv) k old = if same_key (key_of kv) k then some (value_of kv) else old
after_one (Operation.delete key) k old = if same_key key k then none else old

abbrev pub after : {B : Type 0} → List (Operation B) → Key → Option (Value B) → Option (Value B)
after [] k old = old
after (op ∷ ops) k old = after ops k (after_one op k old)

-- Over the states that are valid, reads answer the table and writes change it as the operations say.
pub record IsReliable {B : Type 0} (db : KeyValueDatabase B) (Valid : db.State → Type 0)
    (table : db.State → Key → Option (Value B)) : Type 0 where
  pub get_table :
      (s : db.State) (k : Key)
      → Valid s
      → (state : KeyState (Value B)) × (db.get s k ≡ success state)
        × (into_option state ≡ table s k)
  pub write_table :
      (s : db.State) (tx : Transaction B)
      → Valid s
      → (s' : db.State) × (db.write s tx ≡ (success tt, s'))
        × Valid s'
        × ((k : Key) → table s' k ≡ after tx.operations k (table s k))

-- Each map of the database in memory holds a key once.
pub record KeysDistinct {B : Type 0} (m : InnerDatabase B) : Type 0 where
  pub meta : Distinct (keys m.meta)
  pub block_hash : Distinct (keys m.block_hash)
  pub block : Distinct (keys m.block)
  pub block_number : Distinct (keys m.block_number)
  pub configuration : Distinct (keys m.configuration)

pub empty-KeysDistinct : {B : Type 0} → KeysDistinct (empty B)
unfolding empty
empty-KeysDistinct = record {
  meta = tt;
  block_hash = tt;
  block = tt;
  block_number = tt;
  configuration = tt;
}
