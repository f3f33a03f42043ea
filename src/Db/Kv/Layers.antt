-- ===== src/Db/Kv/Layers.antt =====
-- A layer over a reliable database is a reliable database.
use rust_randchain_prototype.Prelude.{
  ◌⊎◌, ◌≡◌, ◌≢◌, refl, ap, ◌∙◌, true, false, ◌==◌, if◌then◌else◌, Bool-cases, inl, inr, ◌<◌, ◌+◌,
  arith, Option, Result, success, failure, Run, ok, panic,
}
use rust_randchain_prototype.Prelude.HashMap
use rust_randchain_prototype.Db.Kv.Transaction.{
  Bytes, Key, Value, Transaction, KeyState, into_option, KeyValueDatabase,
}
use rust_randchain_prototype.Db.Kv.Memory.{empty, write_operations, state_of, drain_transaction}
use rust_randchain_prototype.Db.Kv.Reliable.{IsReliable, after, KeysDistinct, empty-KeysDistinct}
use rust_randchain_prototype.Db.Kv.MemoryTable.{
  over, write_operations-KeysDistinct, write_operations-state,
}
use rust_randchain_prototype.Db.Kv.Drain.{after-drain_transaction}
use rust_randchain_prototype.Db.Kv.Overlay
use rust_randchain_prototype.Db.Kv.Overlay.{
  AutoFlushing, OverlayDatabase, AutoFlushingOverlayDatabase, or_base, flush, auto_new, auto_write,
  auto_get, flush_at_limit, drop_database,
}

pub state_of-empty : {B : Type 0} (k : Key) → state_of (empty B) k ≡ KeyState.unknown
unfolding state_of empty HashMap.get
state_of-empty (Key.meta i) = refl
state_of-empty (Key.block_hash i) = refl
state_of-empty (Key.block i) = refl
state_of-empty (Key.block_number i) = refl
state_of-empty (Key.configuration i) = refl

module _ {B : Type 0} {base : KeyValueDatabase B} {Valid : base.State → Type 0}
    {table : base.State → Key → Option (Value B)} (reliable : IsReliable base Valid table) where
  -- The overlay is a database in memory over a valid base.
  abbrev pub IsValid : Overlay.Overlay base → Type 0
  IsValid o = Valid o.db × KeysDistinct o.overlay

  -- What the overlay answers, or else the base.
  abbrev pub overlay_table : Overlay.Overlay base → Key → Option (Value B)
  overlay_table o k = over (state_of o.overlay k) (table o.db k)

  or_base_lem :
      (state below : KeyState (Value B)) (old : Option (Value B))
      → into_option below ≡ old
      → (answer : KeyState (Value B)) × (or_base base state (success below) ≡ success answer)
        × (into_option answer ≡ over state old)
  or_base_lem (KeyState.insert v) below old e = (KeyState.insert v, refl, refl)
  or_base_lem KeyState.delete below old e = (KeyState.delete, refl, refl)
  or_base_lem KeyState.unknown below old e = (below, refl, e)

  get_overlay :
      (o : Overlay.Overlay base) (k : Key)
      → IsValid o
      → (state : KeyState (Value B)) × (Overlay.get base o k ≡ success state)
        × (into_option state ≡ overlay_table o k)
  unfolding Overlay.get
  get_overlay o k valid =
      let (below, is_below, is_table) = reliable.get_table o.db k valid.0 in
      let (answer, is_answer, is_over) =
        or_base_lem (state_of o.overlay k) below (table o.db k) is_table in
      (answer, ap (or_base base (state_of o.overlay k)) is_below ∙ is_answer, is_over)

  -- An overlay answers its table, and a transaction changes the table.
  pub OverlayDatabase-IsReliable : IsReliable (OverlayDatabase base) IsValid overlay_table
  unfolding Overlay.write
  OverlayDatabase-IsReliable = record {
    get_table = get_overlay;
    write_table = λ o tx valid. (
      record o { overlay = write_operations o.overlay tx.operations },
      refl,
      (valid.0, write_operations-KeysDistinct tx.operations o.overlay valid.1),
      λ k. write_operations-state tx.operations o.overlay k (table o.db k),
    );
  }

  -- A flush succeeds: the base then holds the table of the overlay, whose table is as before, and the
  -- overlay is empty.
  pub flush-table :
      (o : Overlay.Overlay base)
      → IsValid o
      → (o' : Overlay.Overlay base) × (flush base o ≡ (success tt, o'))
        × IsValid o'
        × ((k : Key) → table o'.db k ≡ overlay_table o k)
        × ((k : Key) → overlay_table o' k ≡ overlay_table o k)
        × ((k : Key) → state_of o'.overlay k ≡ KeyState.unknown)
  unfolding flush drain_transaction
  flush-table o valid =
      let (db, written, db_valid, is_after) =
        reliable.write_table o.db (drain_transaction o.overlay).0 valid.0 in
      let flushed : (k : Key) → table db k ≡ overlay_table o k =
        λ k. is_after k ∙ after-drain_transaction o.overlay k (table o.db k) valid.1 in
      (
        record { db = db; overlay = empty B },
        ap (λ p. (p.0, record { db = p.1; overlay = empty B })) written,
        (db_valid, empty-KeysDistinct),
        flushed,
        λ k. ap (λ s. over s (table db k)) (state_of-empty k) ∙ flushed k,
        state_of-empty,
      )

  -- An overlay over a reliable database is a reliable one, whose table is the overlay's own changes over
  -- the table of the base. A transaction written to it leaves the state of the base as it is, and a flush
  -- succeeds and gives the base the table of the overlay.
  pub OverlayDatabase-isolated :
      IsReliable (OverlayDatabase base) IsValid overlay_table
      × ((o : Overlay.Overlay base) (tx : Transaction B) → (Overlay.write base o tx).1.db ≡ o.db)
      × ((o : Overlay.Overlay base)
          → IsValid o
          → (o' : Overlay.Overlay base) × (flush base o ≡ (success tt, o'))
            × IsValid o'
            × ((k : Key) → table o'.db k ≡ overlay_table o k))
  unfolding Overlay.write
  OverlayDatabase-isolated = (
    OverlayDatabase-IsReliable,
    λ o tx. refl,
    λ o valid.
        let (o', flushed, o'_valid, to_base, _, _) = flush-table o valid in
        (o', flushed, o'_valid, to_base),
  )

  -- One more transaction, before the limit is looked at.
  abbrev pub counted : AutoFlushing base → Transaction B → AutoFlushing base
  counted a tx = record a {
    inner = record a.inner { overlay = write_operations a.inner.overlay tx.operations };
    operations = a.operations + 1;
  }

  -- `flush_at_limit` keeps the table. At the limit the base takes it, and the count starts again; before it
  -- nothing happens.
  flush_at_limit_lem :
      (a : AutoFlushing base)
      → IsValid a.inner
      → (a' : AutoFlushing base) × (flush_at_limit base a ≡ (success tt, a'))
        × IsValid a'.inner
        × ((k : Key) → overlay_table a'.inner k ≡ overlay_table a.inner k)
        × (a'.max_operations ≡ a.max_operations)
        × (a'.operations ≡ (if a.operations == a.max_operations then 0 else a.operations))
        × ((a.operations == a.max_operations) ≡ true
            → (k : Key) → table a'.inner.db k ≡ overlay_table a.inner k)
        × ((a.operations == a.max_operations) ≡ false → a' ≡ a)
  unfolding flush_at_limit
  flush_at_limit_lem a valid = elim (Bool-cases (a.operations == a.max_operations)) [
    | inl e ↦
        let (inner, flushed, inner_valid, to_base, same, _) = flush-table a.inner valid in
        (
          record a { inner = inner; operations = 0 },
          rw e (
              ap
                (λ (p : Result Unit Bytes × Overlay.Overlay base). elim p.0 [
                  | failure x ↦ (failure x, record a { inner = p.1 })
                  | success _ ↦ (success tt, record a { inner = p.1; operations = 0 })
                ])
                flushed),
          inner_valid,
          same,
          refl,
          rw e refl,
          λ _. to_base,
          λ f. ground arith,
        )
    | inr e ↦ (a, rw e refl, valid, λ k. refl, refl, rw e refl, λ t. ground arith, λ _. refl)
  ]

  -- A transaction written to the database that flushes by itself succeeds, whether it flushes or not,
  -- and changes the table; reads answer the table.
  pub AutoFlushingOverlayDatabase-IsReliable :
      IsReliable
        (AutoFlushingOverlayDatabase base)
        (λ a. IsValid a.inner)
        (λ a. overlay_table a.inner)
  unfolding auto_get auto_write Overlay.write
  AutoFlushingOverlayDatabase-IsReliable = record {
    get_table = λ a k valid. get_overlay a.inner k valid;
    write_table = λ a tx valid.
        let (a', flushed, inner_valid, same, _, _, _, _) =
          flush_at_limit_lem (counted a tx)
            (valid.0, write_operations-KeysDistinct tx.operations a.inner.overlay valid.1) in
        (
          a',
          flushed,
          inner_valid,
          λ k. same k ∙ write_operations-state tx.operations a.inner.overlay k (table a.inner.db k),
        );
  }

  -- Below its limit the count stays below it, and a write changes the table as the transaction says. At the
  -- limit the write starts the count again, and then the base has the whole table as it was before the
  -- write, with the transaction; else it counts one more and leaves the base as it is.
  pub auto_write-limit :
      (a : AutoFlushing base) (tx : Transaction B)
      → IsValid a.inner
      → a.operations < a.max_operations
      → (a' : AutoFlushing base) × (auto_write base a tx ≡ (success tt, a'))
        × (a'.operations < a'.max_operations)
        × ((k : Key) → overlay_table a'.inner k ≡ after tx.operations k (overlay_table a.inner k))
        × (((a.operations + 1 ≡ a.max_operations)
              × (a'.operations ≡ 0)
              × ((k : Key) → table a'.inner.db k ≡ after tx.operations k (overlay_table a.inner k)))
            ⊎ ((a.operations + 1 ≢ a.max_operations)
                × (a'.operations ≡ a.operations + 1)
                × (a'.inner.db ≡ a.inner.db)))
  unfolding auto_write Overlay.write
  auto_write-limit a tx valid below =
      let written : (k : Key)
          → over (state_of (write_operations a.inner.overlay tx.operations) k) (table a.inner.db k)
            ≡ after tx.operations k (overlay_table a.inner k) =
        λ k. write_operations-state tx.operations a.inner.overlay k (table a.inner.db k) in
      let (a', flushed, inner_valid, same, max_same, count, to_base, unflushed) =
        flush_at_limit_lem (counted a tx)
          (valid.0, write_operations-KeysDistinct tx.operations a.inner.overlay valid.1) in
      (
        a',
        flushed,
        ground arith,
        λ k. same k ∙ written k,
        elim (Bool-cases (a.operations + 1 == a.max_operations)) [
          | inl full ↦ inl (ground arith, ground arith, λ k. to_base full k ∙ written k)
          | inr more ↦ inr (
            ground arith,
            ground arith,
            ap (λ (x : AutoFlushing base). x.inner.db) (unflushed more),
          )
        ],
      )

  -- When it is dropped, the base has the whole table.
  pub drop_database-table :
      (a : AutoFlushing base)
      → IsValid a.inner
      → (db : base.State) × (drop_database base a ≡ ok db)
        × Valid db
        × ((k : Key) → table db k ≡ overlay_table a.inner k)
  unfolding drop_database
  drop_database-table a valid =
      let (inner, flushed, inner_valid, to_base, _, _) = flush-table a.inner valid in
      (
        inner.db,
        ap
            (λ (p : Result Unit Bytes × Overlay.Overlay base). elim p.0 as (λ r. Run base.State) [
              | failure e ↦ panic
              | success _ ↦ ok p.1.db
            ])
            flushed,
        inner_valid.0,
        to_base,
      )
