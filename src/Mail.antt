-- ===== src/Mail.antt =====
-- src/envelock/channels/mail
pub mod Broker
pub mod ImapSync
pub mod Quarantine
