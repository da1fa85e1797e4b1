-- ===== src/Agents.antt =====
-- The agents behind a turn: planner, safety, executor, critic and coordinator.
pub mod Graph
pub mod Outcome
pub mod Service
mod Tests
