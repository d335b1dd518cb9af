-- ===== src/Llm.antt =====
-- src/envelock/llm
pub mod Cascade
