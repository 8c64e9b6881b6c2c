-- ===== src/Memory.antt =====
-- The memory service, backend/internal/memory/service.go.
pub mod Fraction
pub mod Text
pub mod Sequence
pub mod Similar
pub mod Screen
pub mod Store
pub mod Handle
pub mod Consolidate
pub mod Create
pub mod Lifecycle
pub mod Retrieve
pub mod Background
