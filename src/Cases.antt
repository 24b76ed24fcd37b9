-- ===== src/Cases.antt =====
-- The rows of a business case: apps/api/src/database/repositories.
pub mod Transactions
pub mod Repository
pub mod Evidence
pub mod Laws
pub mod Selection
pub mod Open
pub mod Opened
