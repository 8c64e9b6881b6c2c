-- ===== src/Tests.antt =====
-- Runs of the definitions at fixed inputs, and applications of the theorems to concrete ones.
pub mod Data
pub mod Store
pub mod Graph
pub mod Text
pub mod Decisions
pub mod Runs
pub mod Jobs
pub mod Teams
pub mod Approvals
pub mod Tooling
pub mod Limits
pub mod Memories
pub mod Hubs
pub mod Triggers
pub mod Guards
