-- ===== src/Serialization.antt =====
-- The crate serialization, and the encoding of the crate chain's types.
pub mod Reader
pub mod Impls
pub mod CompactInteger
pub mod Lists
pub mod Headers
pub mod Slices
pub mod RoundTrip
pub mod BlockTrip
pub mod Tests
