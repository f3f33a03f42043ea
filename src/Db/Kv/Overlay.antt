-- ===== src/Db/Kv/Overlay.antt =====
-- db/src/kv/overlaydb.rs: changes kept in memory before a database, until they are flushed. The database
-- behind `OverlayDatabase` is borrowed: its state stands in the overlay's. The mutex of
-- `AutoFlushingOverlayDatabase` is held for the whole of `write`.
use rust_randchain_prototype.Prelude.{
  ℕ, ◌+◌, ◌==◌, if◌then◌else◌, Result, success, failure, Run, ok, panic,
}
use rust_randchain_prototype.Db.Kv.Transaction.{
  Bytes, Key, Value, Transaction, KeyState, KeyValueDatabase,
}
use rust_randchain_prototype.Db.Kv.Memory
use rust_randchain_prototype.Db.Kv.Memory.{InnerDatabase, MemoryDatabase, drain_transaction}

module _ {B : Type 0} (base : KeyValueDatabase B) where
  pub record Overlay : Type 0 where
    pub db : base.State
    pub overlay : InnerDatabase B

  unfoldable pub new : base.State → Overlay
  new db = record { db = db; overlay = Memory.empty B }

  unfoldable pub flush : Overlay → Result Unit Bytes × Overlay
  flush o =
      let (drained, overlay) = drain_transaction o.overlay in
      let (result, db) = base.write o.db drained in (result, record { db = db; overlay = overlay })

  unfoldable pub write : Overlay → Transaction B → Result Unit Bytes × Overlay
  write o tx =
      let (result, overlay) = (MemoryDatabase B).write o.overlay tx in
      (result, record o { overlay = overlay })

  -- The `match` of `get` on the state in the overlay.
  abbrev pub or_base :
      KeyState (Value B) → Result (KeyState (Value B)) Bytes → Result (KeyState (Value B)) Bytes
  or_base KeyState.unknown below = below
  or_base (KeyState.insert v) below = success (KeyState.insert v)
  or_base KeyState.delete below = success KeyState.delete

  unfoldable pub get : Overlay → Key → Result (KeyState (Value B)) Bytes
  get o key = elim ((MemoryDatabase B).get o.overlay key) [
    | failure e ↦ failure e
    | success state ↦ or_base state (base.get o.db key)
  ]

  abbrev pub OverlayDatabase : KeyValueDatabase B
  OverlayDatabase = record { State = Overlay; write = write; get = get }

  -- The fields `db` and `overlay` stand in `inner`.
  pub record AutoFlushing : Type 0 where
    pub inner : Overlay
    pub operations : ℕ
    pub max_operations : ℕ

  unfoldable pub auto_new : base.State → ℕ → AutoFlushing
  unfolding new
  auto_new db max_operations = record {
    inner = new db;
    operations = 0;
    max_operations = max_operations;
  }

  -- What `write` does after the overlay has taken the transaction.
  unfoldable pub flush_at_limit : AutoFlushing → Result Unit Bytes × AutoFlushing
  unfolding flush
  flush_at_limit a =
      let (result, inner) = flush a.inner in
      let flushed : Result Unit Bytes × AutoFlushing = elim result [
        | failure e ↦ (failure e, record a { inner = inner })
        | success _ ↦ (success tt, record a { inner = inner; operations = 0 })
      ] in
      if a.operations == a.max_operations then flushed else (success tt, a)

  unfoldable pub auto_write : AutoFlushing → Transaction B → Result Unit Bytes × AutoFlushing
  unfolding flush_at_limit write
  auto_write a tx =
      let (result, inner) = write a.inner tx in
      let counted : AutoFlushing = record a { inner = inner; operations = a.operations + 1 } in
      elim result [ failure e ↦ (failure e, counted) | success _ ↦ flush_at_limit counted ]

  unfoldable pub auto_get : AutoFlushing → Key → Result (KeyState (Value B)) Bytes
  unfolding get
  auto_get a key = get a.inner key

  -- `Drop`: what is left of it is the database, which is flushed to.
  unfoldable pub drop_database : AutoFlushing → Run base.State
  unfolding flush
  drop_database a =
      let (result, inner) = flush a.inner in
      elim result [ failure e ↦ panic | success _ ↦ ok inner.db ]

  abbrev pub AutoFlushingOverlayDatabase : KeyValueDatabase B
  AutoFlushingOverlayDatabase = record { State = AutoFlushing; write = auto_write; get = auto_get }
