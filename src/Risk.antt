-- ===== src/Risk.antt =====
-- src/envelock/risk
pub mod Engine
