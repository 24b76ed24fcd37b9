-- ===== src/Templates.antt =====
-- Templates: their tree, what a catalog entry defines, and the checks before a publication.
pub mod Tree
pub mod Definition
pub mod Validator
pub mod Semantics
pub mod Slots
pub mod Visited
pub mod Published
pub mod Consistent
