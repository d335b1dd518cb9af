-- ===== src/Billing.antt =====
-- src/envelock/billing
pub mod Pricing
pub mod Trial
