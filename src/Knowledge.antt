-- ===== src/Knowledge.antt =====
-- The knowledge base: how documents are cut into chunks.
pub mod Chunking
mod Tests
