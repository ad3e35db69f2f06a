-- ===== src/Auth.antt =====
-- app/src/lib/auth.ts: one child for each of its parts.
pub mod RateLimit
pub mod Totp
mod Tests
pub mod Password
pub mod Session
