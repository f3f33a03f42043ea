-- ===== src/P2p/Synchronizer.antt =====
-- p2p/src/util/synchronizer.rs: the order in which a peer's requests are answered. Each of the
-- structs that implement the trait `Synchronizer` is a module with the trait's three methods; the
-- enum `InnerSynchronizer` and `ConfigurableSynchronizer` are in `Configurable`.
pub mod Fifo
pub mod Noop
pub mod Threshold
pub mod Configurable
pub mod Ids
pub mod Order
pub mod Window
pub mod Policy
