-- ===== src/RateLimiter.antt =====
-- internal/ratelimiter: the limits on login, signup and challenge attempts.
pub mod Config
pub mod Keys
pub mod Table
pub mod Outcome
pub mod Memory
pub mod Cache
pub mod Agreement
mod Examples
