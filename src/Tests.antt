-- ===== src/Tests.antt =====
-- Runs of the model at concrete inputs, and the theorems applied at them.
mod Data
mod LinkTests
mod ReviewTests
pub mod PdfTests
pub mod GateTests
pub mod DraftTests
pub mod CaseTests
pub mod FileTests
mod UploadTests
mod TemplateTests
mod SigningTests
mod PreviewTests
mod AuthTests
pub mod CatalogTests
