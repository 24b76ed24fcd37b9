-- ===== src/Catalog.antt =====
-- The catalog of requirements and templates.
pub mod Versions
pub mod Immutable
pub mod Editor
pub mod Accepted
