-- ===== src/Db/Kv.antt =====
-- db/src/kv: transactions, the database in memory, and the databases that stand before another one.
pub mod Transaction
pub mod Memory
pub mod Overlay
pub mod Reliable
pub mod MemoryTable
pub mod Drain
pub mod Layers
