-- ===== src/Platform.antt =====
-- src/envelock/platform
pub mod Graph
pub mod Alerts
pub mod Learning
pub mod Pipeline
pub mod GraphStore
pub mod Remediation
pub mod RiskProfile
