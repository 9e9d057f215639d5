-- ===== src/Jobs.antt =====
-- The background worker, app/jobs: queues of rows that a worker claims, works on and finishes.
pub mod Retry
pub mod Queue
pub mod Invoices
pub mod Transfers
pub mod Emails
