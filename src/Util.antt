-- ===== src/Util.antt =====
-- src/envelock/util
pub mod Distance
pub mod Lookalike
