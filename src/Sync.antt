-- ===== src/Sync.antt =====
-- sync/src/utils: the in-memory structures of the synchronization client.
pub mod HashQueue
pub mod QueueChain
pub mod KnownHashFilter
pub mod Chain
pub mod BestHeaders
pub mod OrphanPool
mod Tests
