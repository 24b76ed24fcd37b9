-- ===== src/Model.antt =====
-- The rows and tables of the service's database (prisma/schema.prisma), and the enumerations of
-- packages/contracts/src/enums.ts. A column that no modelled operation reads is left out.
pub mod Status
pub mod Rows
pub mod Db
