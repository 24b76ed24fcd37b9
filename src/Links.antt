-- ===== src/Links.antt =====
-- Public links: apps/api/src/cases/token.service.ts, and the link operations of
-- apps/api/src/cases/case.service.ts.
pub mod Access
pub mod Operations
pub mod Resolution
pub mod Rotation
pub mod SingleOpen
