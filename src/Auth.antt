-- ===== src/Auth.antt =====
-- apps/api/src/auth: who may call a handler, one-time codes and refresh tokens.
pub mod Guard
pub mod Otp
pub mod Tokens
mod Tests
