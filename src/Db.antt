-- ===== src/Db.antt =====
-- The crate `db`: the key-value stores, and the chain that is kept in one.
pub mod Kv
pub mod Chain
pub mod Tests
