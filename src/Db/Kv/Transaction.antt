-- ===== src/Db/Kv/Transaction.antt =====
-- db/src/kv/transaction.rs and db/src/kv/db.rs: what is written to a database and read from it. A
-- `&'static str` is the number that its bytes spell: only its equality with another one is used. The
-- type of the blocks is a parameter.
use rust_randchain_prototype.Prelude.{
  ℕ, Bool, ◌&&◌, Option, none, some, List, [], ◌∷◌, ◌++◌, ◌==◌, H256, Result,
}

abbrev pub Text : Type 0
Text = ℕ

abbrev pub Bytes : Type 0
Bytes = List ℕ

abbrev pub col_meta : ℕ
col_meta = 0

abbrev pub col_block_hashes : ℕ
col_block_hashes = 1

abbrev pub col_blocks : ℕ
col_blocks = 2

abbrev pub col_block_numbers : ℕ
col_block_numbers = 3

abbrev pub col_configuration : ℕ
col_configuration = 4

pub data KeyValue (B : Type 0) : Type 0 where
  meta : Text → Bytes → KeyValue B
  block_hash : ℕ → H256 → KeyValue B
  block : H256 → B → KeyValue B
  block_number : H256 → ℕ → KeyValue B
  configuration : Text → Bytes → KeyValue B

pub data Key : Type 0 where
  meta : Text → Key
  block_hash : ℕ → Key
  block : H256 → Key
  block_number : H256 → Key
  configuration : Text → Key

pub data Value (B : Type 0) : Type 0 where
  meta : Bytes → Value B
  block_hash : H256 → Value B
  block : B → Value B
  block_number : ℕ → Value B
  configuration : Bytes → Value B

pub data Operation (B : Type 0) : Type 0 where
  insert : KeyValue B → Operation B
  delete : Key → Operation B

pub record Transaction (B : Type 0) : Type 0 where
  pub operations : List (Operation B)

pub data KeyState (V : Type 0) : Type 0 where
  insert : V → KeyState V
  delete unknown : KeyState V

-- `DBTransaction::new()`, and `insert` and `delete` on it.
abbrev pub new : (B : Type 0) → Transaction B
new B = record { operations = [] }

module _ {B : Type 0} where
  abbrev pub push_insert : Transaction B → KeyValue B → Transaction B
  push_insert t kv = record { operations = t.operations ++ (Operation.insert kv ∷ []) }

  abbrev pub push_delete : Transaction B → Key → Transaction B
  push_delete t key = record { operations = t.operations ++ (Operation.delete key ∷ []) }

  abbrev pub as_meta : Value B → Option Bytes
  as_meta (Value.meta bytes) = some bytes
  as_meta (Value.block_hash h) = none
  as_meta (Value.block b) = none
  as_meta (Value.block_number n) = none
  as_meta (Value.configuration bytes) = none

  abbrev pub as_block_hash : Value B → Option H256
  as_block_hash (Value.block_hash h) = some h
  as_block_hash (Value.meta bytes) = none
  as_block_hash (Value.block b) = none
  as_block_hash (Value.block_number n) = none
  as_block_hash (Value.configuration bytes) = none

  abbrev pub as_block : Value B → Option B
  as_block (Value.block b) = some b
  as_block (Value.meta bytes) = none
  as_block (Value.block_hash h) = none
  as_block (Value.block_number n) = none
  as_block (Value.configuration bytes) = none

  abbrev pub as_block_number : Value B → Option ℕ
  as_block_number (Value.block_number n) = some n
  as_block_number (Value.meta bytes) = none
  as_block_number (Value.block_hash h) = none
  as_block_number (Value.block b) = none
  as_block_number (Value.configuration bytes) = none

  abbrev pub as_configuration : Value B → Option Bytes
  as_configuration (Value.configuration bytes) = some bytes
  as_configuration (Value.meta bytes) = none
  as_configuration (Value.block_hash h) = none
  as_configuration (Value.block b) = none
  as_configuration (Value.block_number n) = none

abbrev pub map : {U V : Type 0} → (V → U) → KeyState V → KeyState U
map f (KeyState.insert v) = KeyState.insert (f v)
map f KeyState.delete = KeyState.delete
map f KeyState.unknown = KeyState.unknown

abbrev pub into_option : {V : Type 0} → KeyState V → Option V
into_option (KeyState.insert v) = some v
into_option KeyState.delete = none
into_option KeyState.unknown = none

abbrev pub into_operation :
    {B V : Type 0} {K : Type 0}
    → K
    → (K → V → KeyValue B)
    → (K → Key)
    → KeyState V
    → Option (Operation B)
into_operation key insertion deletion (KeyState.insert v) =
    some (Operation.insert (insertion key v))
into_operation key insertion deletion KeyState.delete = some (Operation.delete (deletion key))
into_operation key insertion deletion KeyState.unknown = none

-- The trait `KeyValueDatabase`. `write` and `get` of the source take `&self` and change what is behind it.
pub record KeyValueDatabase (B : Type 0) : Type 1 where
  pub State : Type 0
  pub write : State → Transaction B → Result Unit Bytes × State
  pub get : State → Key → Result (KeyState (Value B)) Bytes

-- The column of a key, and the key within it.
abbrev pub column : Key → ℕ
column (Key.meta t) = col_meta
column (Key.block_hash n) = col_block_hashes
column (Key.block h) = col_blocks
column (Key.block_number h) = col_block_numbers
column (Key.configuration t) = col_configuration

abbrev pub within : Key → ℕ
within (Key.meta t) = t
within (Key.block_hash n) = n
within (Key.block h) = h
within (Key.block_number h) = h
within (Key.configuration t) = t

abbrev pub same_key : Key → Key → Bool
same_key a b = (column a == column b) && (within a == within b)

abbrev pub key_of : {B : Type 0} → KeyValue B → Key
key_of (KeyValue.meta t v) = Key.meta t
key_of (KeyValue.block_hash n v) = Key.block_hash n
key_of (KeyValue.block h v) = Key.block h
key_of (KeyValue.block_number h v) = Key.block_number h
key_of (KeyValue.configuration t v) = Key.configuration t

abbrev pub value_of : {B : Type 0} → KeyValue B → Value B
value_of (KeyValue.meta t v) = Value.meta v
value_of (KeyValue.block_hash n v) = Value.block_hash v
value_of (KeyValue.block h v) = Value.block v
value_of (KeyValue.block_number h v) = Value.block_number v
value_of (KeyValue.configuration t v) = Value.configuration v
