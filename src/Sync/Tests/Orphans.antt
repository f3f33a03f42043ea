-- ===== src/Sync/Tests/Orphans.antt =====
-- A pool of three orphans: 3 on 2, and 2 on 1, which is unknown, and 9 on 8.
use rust_randchain_prototype.Prelude.{ℕ, [], ◌∷◌}
use rust_randchain_prototype.Prelude.HashMap
use rust_randchain_prototype.Sync.OrphanPool.{OrphanBlocksPool}
use rust_randchain_prototype.Sync.Tests.Insertion.{block_under}

abbrev orphans : OrphanBlocksPool ℕ ℕ ℕ
orphans = record {
  orphaned_blocks =
      (2, (3, block_under 2 3) ∷ [])
      ∷ (1, (2, block_under 1 2) ∷ [])
      ∷ (8, (9, block_under 8 9) ∷ [])
      ∷ [];
  unknown_blocks = (2, 0) ∷ [];
}
