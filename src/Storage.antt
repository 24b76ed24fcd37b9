-- ===== src/Storage.antt =====
-- The storage package: the policy of file names, contents and sizes.
pub mod Policy
pub mod Content
