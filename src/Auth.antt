-- ===== src/Auth.antt =====
-- Who may do what: scopes, and the API keys that carry them.
pub mod Scopes
pub mod Keys
mod Grants
mod Lifetime
mod Tests
