-- ===== src/Review.antt =====
-- The review desk: apps/api/src/review/review.service.ts.
pub mod Assignment
pub mod Items
pub mod Confirm
pub mod Ledger
pub mod Verdict
pub mod Messages
