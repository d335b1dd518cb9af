-- ===== src/Detections.antt =====
-- src/envelock/detections
pub mod Context
pub mod Coherent
pub mod Base
pub mod Identity
pub mod Sessions
pub mod Suite
pub mod Triage
pub mod Attachments
pub mod Urls
mod Examples
