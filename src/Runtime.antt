-- ===== src/Runtime.antt =====
-- The agent runtime: backend/internal/runtime.
pub mod Json
pub mod Decision
pub mod Memory
pub mod Repair
pub mod Gate
pub mod Run
pub mod Perform
pub mod Aggregate
pub mod Execute
