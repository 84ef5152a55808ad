-- ===== src/Transfers.antt =====
-- The matching of the two legs of a transfer: finance/service_transfer_matching.go with what it
-- reads and writes.
pub mod Types
pub mod Index
pub mod Fx
pub mod Evidence
pub mod Candidates
pub mod Decide
pub mod Rows
pub mod Loading
pub mod Store
pub mod Service
pub mod Detail
mod Examples
