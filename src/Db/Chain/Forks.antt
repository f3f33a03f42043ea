-- ===== src/Db/Chain/Forks.antt =====
-- `fork` and `switch_to_fork` of db/src/block_chain_db.rs: a chain that is tried in an overlay before the
-- database, and then flushed to it. The fork borrows the database that it is made of, which does not
-- change until the fork is flushed.
use rust_randchain_prototype.Prelude.{
  List, [], ◌∷◌, ◌==◌, if◌then◌else◌, reverse, H256, Result, success, failure, Run, ok, panic,
  ◌>>=◌,
}
use rust_randchain_prototype.Storage.{SideChainOrigin}
use rust_randchain_prototype.Serialization.Impls.{LittleEndian}
use rust_randchain_prototype.Serialization.Headers.{Block}
use rust_randchain_prototype.Db.Kv.Transaction.{KeyValueDatabase}
use rust_randchain_prototype.Db.Kv.Overlay
use rust_randchain_prototype.Db.Kv.Overlay.{OverlayDatabase}
use rust_randchain_prototype.Db.Chain.{BlockChainDatabase, Error, database_error, open_db}
use rust_randchain_prototype.Db.Chain.Writes.{Outcome, canonize, decanonize}

-- `ForkChainDatabase` is the blockchain over the overlay.
abbrev pub ForkChainDatabase : {Pk Int : Type 0} → KeyValueDatabase (Block Pk Int) → Type 0
ForkChainDatabase kv = BlockChainDatabase (OverlayDatabase kv)

module _ {Pk Int : Type 0} (order : LittleEndian) {kv : KeyValueDatabase (Block Pk Int)} where
  -- `overlay.decanonize()?` for each hash, which has to be the one that is taken off.
  unfoldable pub decanonize_route : BlockChainDatabase kv → List H256 → Outcome kv Unit
  decanonize_route c [] = ok (success tt, c)
  decanonize_route c (h ∷ hashes) = do
    result ← decanonize order c
    elim result.0 [
      | failure e ↦ ok (failure e, result.1)
      | success decanonized ↦ if h == decanonized then decanonize_route result.1 hashes else panic
    ]

  -- `overlay.canonize(block_hash)?` for each hash.
  unfoldable pub canonize_route : BlockChainDatabase kv → List H256 → Outcome kv Unit
  canonize_route c [] = ok (success tt, c)
  canonize_route c (h ∷ hashes) = do
    result ← canonize order c h
    elim result.0 [
      | failure e ↦ ok (failure e, result.1)
      | success _ ↦ canonize_route result.1 hashes
    ]

module _ {Pk Int : Type 0} (order : LittleEndian) {kv : KeyValueDatabase (Block Pk Int)} where
  -- The two loops of `fork`, from the overlay that is opened.
  unfoldable pub fork_overlay :
      ForkChainDatabase kv → SideChainOrigin → Outcome (OverlayDatabase kv) Unit
  unfolding decanonize_route canonize_route
  fork_overlay overlay origin = do
    result ← decanonize_route order overlay (reverse origin.decanonized_route)
    elim result.0 [
      | failure e ↦ ok (failure e, result.1)
      | success _ ↦ canonize_route order result.1 origin.canonized_route
    ]

  unfoldable pub fork :
      BlockChainDatabase kv → SideChainOrigin → Run (Result (ForkChainDatabase kv) Error)
  unfolding fork_overlay
  fork c origin = do
    overlay ← open_db order (OverlayDatabase kv) (Overlay.new kv c.db)
    result ← fork_overlay overlay origin
    elim result.0 [ failure e ↦ ok (failure e) | success _ ↦ ok (success result.1) ]

module _ {Pk Int : Type 0} {kv : KeyValueDatabase (Block Pk Int)} where
  -- The best block is the fork's before the flush is tried.
  unfoldable pub switch_to_fork : BlockChainDatabase kv → ForkChainDatabase kv → Outcome kv Unit
  switch_to_fork c tried =
      let (flushed, overlay) = Overlay.flush kv tried.db in
      elim flushed [
        | failure e ↦
            ok (
              failure (database_error e),
              record { best_block = tried.best_block; db = overlay.db },
            )
        | success _ ↦ ok (success tt, record { best_block = tried.best_block; db = overlay.db })
      ]
