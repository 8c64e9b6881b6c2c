-- ===== src/Knowledge.antt =====
-- Document ingestion and retrieval: backend/internal/knowledge.
pub mod Chunk
pub mod Normalize
