-- ===== src/Notify.antt =====
-- src/envelock/notify
pub mod Ladder
pub mod Dispatch
