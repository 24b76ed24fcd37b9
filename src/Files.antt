-- ===== src/Files.antt =====
-- Files and their versions: apps/api/src/files.
pub mod Capacity
pub mod Incoming
pub mod Uploads
pub mod Bounds
pub mod Within
pub mod Placed
pub mod Steps
pub mod Gate
pub mod Removal
pub mod Removed
