-- ===== src/Sync/Tests.antt =====
-- Runs of the structures of sync/src/utils on small inputs, and their theorems at such inputs.
mod Queues
mod Headers
mod Flight
pub mod Insertion
mod Orphans
