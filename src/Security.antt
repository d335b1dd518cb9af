-- ===== src/Security.antt =====
-- src/envelock/security/limits.py, one module for each of its stores
pub mod RateLimit
pub mod Lockout
pub mod Replay
pub mod Revocations
