-- ===== src/Pdf.antt =====
-- The final PDF: its tasks, their leases and the delivery of the result.
pub mod Jobs
pub mod Complete
pub mod Parts
pub mod Lease
pub mod Retry
pub mod Requeue
pub mod Attempts
