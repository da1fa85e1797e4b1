-- ===== src/Tools.antt =====
-- The tools that the agents call: the registries that know them and the router that runs them.
pub mod Dict
pub mod McpRegistry
pub mod Router
mod Tests
