-- ===== src/Verification.antt =====
-- The crate verification: the rules a block and its header must meet.
pub mod Errors
pub mod Work
pub mod Timestamp
pub mod Headers
pub mod ChainVerifier
pub mod Retarget
pub mod Median
pub mod Rules
pub mod Acceptance
pub mod Levels
mod Tests
