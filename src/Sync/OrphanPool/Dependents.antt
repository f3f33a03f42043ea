-- ===== src/Sync/OrphanPool/Dependents.antt =====
-- `remove_blocks_for_parent` ends, and takes the blocks that depend on the hash.
use rust_randchain_prototype.Prelude.HashMap
