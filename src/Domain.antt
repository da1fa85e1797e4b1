-- ===== src/Domain.antt =====
-- The data model: src/voxforge/core/domain. UUIDs and instants are natural numbers.
pub mod Json
pub mod Session
pub mod Handoff
pub mod Tools
