-- ===== src/P2p.antt =====
-- The crate p2p: in which order a peer's requests are answered, and the responses that wait for it.
pub mod Synchronizer
pub mod ResponseQueue
mod Tests
