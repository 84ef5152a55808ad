-- ===== src/Reports.antt =====
-- The dashboard of a tenant: finance/reporting.go and finance/service_reporting.go.
pub mod Types
pub mod Dashboard
pub mod Coverage
pub mod Totals
pub mod Counts
mod Examples
