-- ===== src/Governance.antt =====
-- src/envelock/governance
pub mod Retention
