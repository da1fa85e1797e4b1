-- ===== src/Store.antt =====
-- Where the program keeps its state: PostgreSQL tables, Redis keys, the event bus.
pub mod World
pub mod Exec
pub mod Redis
pub mod Sessions
pub mod Handoffs
pub mod Frame
pub mod Keep
pub mod Triple
pub mod Sample
