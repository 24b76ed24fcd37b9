-- ===== src/Drafts.antt =====
-- The customer's drafts and their formal submission: apps/api/src/cases.
pub mod Content
pub mod Save
pub mod Saved
pub mod Guards
pub mod Submit
pub mod Checked
pub mod Submitted
pub mod Accepted
