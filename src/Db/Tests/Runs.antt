-- ===== src/Db/Tests/Runs.antt =====
-- The database of the tests, and the layers over its store, run.
use rust_randchain_prototype.Prelude.{
  ◌≢◌, Run, Result, panic, ℕ, length, ◌≤◌, ◌+◌, ◌<◌, ◌⊎◌, ◌≡◌, refl, Bool, true, false,
  if◌then◌else◌, ◌==◌, none, some, [], ◌∷◌, arith, H256, success, failure, ok,
}
use rust_randchain_prototype.Prelude.HashMap
use rust_randchain_prototype.Blocks.{IndexedBlock}
use rust_randchain_prototype.Serialization.Headers.{Block}
use rust_randchain_prototype.Serialization.Tests.{little, little_laws}
use rust_randchain_prototype.Db.Kv.Transaction.{
  map, Key, KeyState, Value, Operation, Transaction, KeyValueDatabase,
}
use mathlib.Core.Option
use rust_randchain_prototype.Db.Kv.Memory
use rust_randchain_prototype.Db.Kv.Memory.{MemoryDatabase, state_of, unwrap_or_default}
use rust_randchain_prototype.Db.Kv.Reliable.{after, KeysDistinct, IsReliable}
use rust_randchain_prototype.Db.Kv.MemoryTable.{memory_table, MemoryDatabase-IsReliable, over}
use rust_randchain_prototype.Db.Kv.Overlay
use rust_randchain_prototype.Db.Kv.Overlay.{
  AutoFlushing, OverlayDatabase, AutoFlushingOverlayDatabase, auto_new, auto_write, flush,
  drop_database,
}
use rust_randchain_prototype.Db.Kv.Layers.{
  IsValid, overlay_table, OverlayDatabase-isolated, auto_write-limit, drop_database-table,
  AutoFlushingOverlayDatabase-IsReliable,
}
use rust_randchain_prototype.Db.Chain
use rust_randchain_prototype.Db.Chain.Reach.{
  Reach, here, next, inserts, canonizes, Reach-Represents,
}
use rust_randchain_prototype.Db.Chain.{BlockChainDatabase, Error, open_db}
use rust_randchain_prototype.Db.Chain.Writes
use rust_randchain_prototype.Db.Chain.Origin.{block_origin}
use rust_randchain_prototype.Storage.{BlockOrigin}
use rust_randchain_prototype.Db.Chain.Forks.{ForkChainDatabase, fork, switch_to_fork}
use rust_randchain_prototype.Db.Chain.Ledger
use rust_randchain_prototype.Db.Chain.Ledger.{IsLedger}
use rust_randchain_prototype.Db.Chain.LedgerSteps.{insert-IsLedger, canonize-IsLedger}
use rust_randchain_prototype.Db.Chain.Refinement.{Represents, Holds}
use rust_randchain_prototype.Db.Chain.Refinement.Tables.{Refines}
use rust_randchain_prototype.Db.Chain.Refinement.Insert.{insert-Refines}
use rust_randchain_prototype.Db.Chain.Refinement.Canonize.{canonize-Refines}
use rust_randchain_prototype.Db.Chain.Refinement.Decanonize.{decanonize-Refines}
use rust_randchain_prototype.Db.Chain.Refinement.Open.{open_db-Represents}
use rust_randchain_prototype.Db.Chain.Refinement.RouteLoop.{side_of, route_origin}
use rust_randchain_prototype.Db.Chain.Refinement.Origin.{
  OriginOf, beside, block_origin-answer, block_origin-OriginOf,
}
use rust_randchain_prototype.Db.Chain.Refinement.Switch.{fork-Represents, switch_to_fork-Represents}
use rust_randchain_prototype.Db.Tests.{
  header_on, block_on, store, ledger, database, store-KeysDistinct, store-Holds,
  database-Represents, ledger-IsLedger, route_of_three,
}

abbrev base : KeyValueDatabase (Block ℕ ℕ)
base = MemoryDatabase (Block ℕ ℕ)

reliable : IsReliable base KeysDistinct memory_table
reliable = MemoryDatabase-IsReliable (Block ℕ ℕ)

-- A block on block 3.
abbrev fourth : IndexedBlock ℕ ℕ
fourth = record { header = record { hash = 4; raw = header_on 3 }; proof = [] }

insert-Refines_example :
    Refines little KeysDistinct memory_table
      (Writes.insert database fourth)
      (Ledger.insert ledger fourth)
insert-Refines_example = insert-Refines reliable database ledger database-Represents fourth

canonize-Refines_example :
    Refines little KeysDistinct memory_table
      (Writes.canonize little database 3)
      (Ledger.canonize ledger 3)
canonize-Refines_example =
    canonize-Refines reliable database ledger database-Represents 3 ledger-IsLedger (omega arith)

decanonize-Refines_example :
    Refines little KeysDistinct memory_table
      (Writes.decanonize little database)
      (Ledger.decanonize ledger)
decanonize-Refines_example =
    decanonize-Refines reliable database ledger database-Represents ledger-IsLedger

insert-IsLedger_example : IsLedger (Ledger.insert ledger fourth).1
insert-IsLedger_example = insert-IsLedger ledger fourth ledger-IsLedger refl

canonize-IsLedger_example : IsLedger (Ledger.canonize ledger 3).1
canonize-IsLedger_example = canonize-IsLedger ledger 3 ledger-IsLedger

open_db-Represents_example :
    (c : BlockChainDatabase base) × (open_db little base store ≡ ok c)
    × Represents little KeysDistinct memory_table c ledger
open_db-Represents_example =
    open_db-Represents little_laws reliable store ledger store-KeysDistinct store-Holds
      (omega arith) (omega arith)

four-OriginOf :
    OriginOf ledger fourth.header (ok (success (side_of 1 (route_origin (2 ∷ 1 ∷ []) 0 (3 ∷ [])))))
unfolding HashMap.get
four-OriginOf = beside refl (omega arith) refl route_of_three (omega arith)

block_origin-OriginOf_example :
    ((answer : Run (Result BlockOrigin Error)) × OriginOf ledger fourth.header answer)
    × ((answer : Run (Result BlockOrigin Error))
        → OriginOf ledger fourth.header answer
        → block_origin database fourth.header ≡ answer)
block_origin-OriginOf_example =
    block_origin-OriginOf reliable database ledger database-Represents fourth.header (omega arith)
      (omega arith)

block_origin-fourth :
    block_origin database fourth.header
    ≡ ok (success (side_of 1 (route_origin (2 ∷ 1 ∷ []) 0 (3 ∷ []))))
block_origin-fourth =
    block_origin-answer reliable database ledger database-Represents fourth.header four-OriginOf
      (omega arith) (omega arith)

-- A second block without a parent is inserted, and the origin of a header on it is a panic.
abbrev two_roots : BlockChainDatabase base
two_roots = record {
  best_block = database.best_block;
  db = record store {
    block =
        (1, KeyState.insert (block_on 0))
        ∷ (2, KeyState.insert (block_on 1))
        ∷ (3, KeyState.insert (block_on 1))
        ∷ (5, KeyState.insert (block_on 0))
        ∷ [];
  };
}

insert-second_root :
    Writes.insert database (record { header = record { hash = 5; raw = header_on 0 }; proof = [] })
    ≡ ok (success tt, two_roots)
unfolding Writes.insert Chain.contains_block Chain.resolve_hash Chain.get Writes.insert_unknown
    Writes.commit state_of HashMap.get HashMap.insert Memory.write_operations Memory.write_operation
insert-second_root = refl

block_origin-second_root : block_origin two_roots (record { hash = 6; raw = header_on 5 }) ≡ panic
unfolding block_origin Chain.contains_block Chain.resolve_hash Chain.get Chain.block_hash state_of
    Chain.block_number Chain.block_header HashMap.get
block_origin-second_root = refl

fork-Represents_example :
    (tried : ForkChainDatabase base) × (fork little database (route_origin (2 ∷ 1 ∷ []) 0 (3 ∷ []))
      ≡ ok (success tried))
    × Represents little
        (IsValid reliable)
        (overlay_table reliable)
        tried
        (record ledger { chain = 3 ∷ 1 ∷ [] })
    × IsLedger (record ledger { chain = 3 ∷ 1 ∷ [] })
fork-Represents_example =
    fork-Represents little_laws reliable database ledger database-Represents ledger-IsLedger
      route_of_three (omega arith) (omega arith) (omega arith)

-- A fork that the block on block 3 was inserted in.
abbrev overlaid : Overlay.Overlay base
overlaid = record {
  db = store;
  overlay = record (Memory.empty (Block ℕ ℕ)) { block = (4, KeyState.insert (block_on 3)) ∷ [] };
}

overlaid-IsValid : IsValid reliable overlaid
unfolding Memory.empty
overlaid-IsValid = (
  store-KeysDistinct,
  record { meta = tt; block_hash = tt; block = (refl, tt); block_number = tt; configuration = tt },
)

overlaid-Holds : Holds little (overlay_table reliable overlaid) (Ledger.with_block ledger fourth)
unfolding Memory.empty HashMap.get state_of
overlaid-Holds = record {
  hash_at = store-Holds.hash_at;
  number_at = store-Holds.number_at;
  block_at = λ h. go (4 == h) h;
  meta = store-Holds.meta;
}
  where
    go :
        (test : Bool) (h : H256)
        → over
            (map Value.block
              (unwrap_or_default (if test then some (KeyState.insert (block_on 3)) else none)))
            (memory_table store (Key.block h))
          ≡ Option.map Value.block (if test then some (block_on 3) else ledger.blocks h)
    go true h = refl
    go false h = store-Holds.block_at h

switch_to_fork-Represents_example :
    (c' : BlockChainDatabase base) × (switch_to_fork database
        (record { best_block = database.best_block; db = overlaid })
      ≡ ok (success tt, c'))
    × Represents little KeysDistinct memory_table c' (Ledger.with_block ledger fourth)
switch_to_fork-Represents_example =
    switch_to_fork-Represents reliable database
      (record { best_block = database.best_block; db = overlaid }) (Ledger.with_block ledger fourth)
      (overlaid-IsValid, refl, overlaid-Holds)

-- One write below the limit.
abbrev counting : AutoFlushing base
counting = record { inner = overlaid; operations = 48; max_operations = 50 }

abbrev fourth_update : Transaction (Block ℕ ℕ)
fourth_update = record { operations = Operation.delete (Key.block 4) ∷ [] }

auto_write-limit_example :
    (a' : AutoFlushing base) × (auto_write base counting fourth_update ≡ (success tt, a'))
    × (a'.operations < a'.max_operations)
    × ((k : Key)
        → overlay_table reliable a'.inner k
          ≡ after fourth_update.operations k (overlay_table reliable counting.inner k))
    × (((48 + 1 ≡ counting.max_operations)
          × (a'.operations ≡ 0)
          × ((k : Key)
              → memory_table a'.inner.db k
                ≡ after fourth_update.operations k (overlay_table reliable counting.inner k)))
        ⊎ ((48 + 1 ≢ counting.max_operations)
            × (a'.operations ≡ 48 + 1)
            × (a'.inner.db ≡ counting.inner.db)))
auto_write-limit_example =
    auto_write-limit reliable counting fourth_update overlaid-IsValid (omega arith)

OverlayDatabase-isolated_example :
    IsReliable (OverlayDatabase base) (IsValid reliable) (overlay_table reliable)
    × ((o : Overlay.Overlay base) (tx : Transaction (Block ℕ ℕ))
        → (Overlay.write base o tx).1.db ≡ o.db)
    × ((o : Overlay.Overlay base)
        → IsValid reliable o
        → (o' : Overlay.Overlay base) × (Overlay.flush base o ≡ (success tt, o'))
          × IsValid reliable o'
          × ((k : Key) → memory_table o'.db k ≡ overlay_table reliable o k))
OverlayDatabase-isolated_example = OverlayDatabase-isolated reliable

AutoFlushingOverlayDatabase-IsReliable_example :
    IsReliable
      (AutoFlushingOverlayDatabase base)
      (λ a. IsValid reliable a.inner)
      (λ a. overlay_table reliable a.inner)
AutoFlushingOverlayDatabase-IsReliable_example = AutoFlushingOverlayDatabase-IsReliable reliable

-- The database with the block on block 3.
abbrev with_fourth : BlockChainDatabase base
with_fourth = record {
  best_block = database.best_block;
  db = record store {
    block =
        (1, KeyState.insert (block_on 0))
        ∷ (2, KeyState.insert (block_on 1))
        ∷ (3, KeyState.insert (block_on 1))
        ∷ (4, KeyState.insert (block_on 3))
        ∷ [];
  };
}

insert-fourth : Writes.insert database fourth ≡ ok (success tt, with_fourth)
unfolding Writes.insert Chain.contains_block Chain.resolve_hash Chain.get Writes.insert_unknown
    Writes.commit state_of HashMap.get HashMap.insert Memory.write_operations Memory.write_operation
insert-fourth = refl

fourth-Reach : Reach little database 2 with_fourth
unfolding Writes.canonize Chain.block Chain.block_at Chain.resolve_hash Chain.get
    Writes.canonize_block state_of HashMap.get
fourth-Reach =
    next (next here (inserts fourth refl insert-fourth))
      (canonizes 4 {answer = failure Chain.cannot_canonize} refl)

Reach-Represents_example :
    (l' : Ledger.Ledger (Block ℕ ℕ)) × Represents little KeysDistinct memory_table with_fourth l'
    × IsLedger l'
    × (length l'.chain ≤ 2 + 2)
Reach-Represents_example =
    Reach-Represents reliable database ledger database-Represents ledger-IsLedger fourth-Reach
      (omega arith)

drop_database-table_example :
    (db : base.State) × (drop_database base counting ≡ ok db)
    × KeysDistinct db
    × ((k : Key) → memory_table db k ≡ overlay_table reliable overlaid k)
drop_database-table_example = drop_database-table reliable counting overlaid-IsValid
