-- ===== src/Primitives.antt =====
-- The crate primitives: the compact form of a target.
pub mod Compact
