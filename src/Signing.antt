-- ===== src/Signing.antt =====
-- Ordinary signing: the command that a customer sends, and the two transactions that record it.
pub mod Command
pub mod Placed
pub mod Prepare
pub mod Signed
pub mod Submittable
pub mod Completed
pub mod Cache
pub mod Preview
pub mod Retired
pub mod Cached
pub mod Reused
