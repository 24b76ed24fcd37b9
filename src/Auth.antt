-- ===== src/Auth.antt =====
-- Who may do what: apps/api/src/auth.
pub mod Abilities
pub mod Grants
pub mod Identity
pub mod Revoked
