-- ===== src/Auth.antt =====
-- The core of authentication: sessions, refresh tokens and one-time codes.
pub mod Sessions
pub mod Refresh
pub mod RateLimit
pub mod Otp
pub mod Users
pub mod Tokens
pub mod Password
pub mod Service
mod Tests
