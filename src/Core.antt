-- ===== src/Core.antt =====
-- src/envelock/core
pub mod Enums
pub mod Capabilities
