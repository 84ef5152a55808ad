-- ===== src/Sync.antt =====
-- The synchronisation of bank providers: finance/internal/providers.
pub mod Types
pub mod Windows
pub mod Diff
pub mod Apply
pub mod Orchestrator
pub mod Executor
pub mod Loading
pub mod Saving
mod Examples
