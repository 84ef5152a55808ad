-- ===== src/Jobs.antt =====
-- The durable background jobs of the application: apps/sumweave/internal/jobs.
pub mod Types
pub mod Table
pub mod Store
pub mod Recovery
pub mod Failures
pub mod Worker
pub mod Listing
pub mod Lifecycle
mod Examples
