-- ===== src/RateLimit.antt =====
-- infrastructure/http/rate_limit.py: the policies of the request categories, the counters in
-- Redis, and the places that enforce them.
pub mod Policy
pub mod Table
pub mod Limiter
pub mod Enforce
mod Resolve
mod Window
mod Outage
mod Tests
