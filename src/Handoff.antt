-- ===== src/Handoff.antt =====
-- modules/handoff/application: deciding to hand a call to a human, and doing it.
pub mod Summary
pub mod Replay
pub mod Orchestrator
pub mod Policy
pub mod Context
