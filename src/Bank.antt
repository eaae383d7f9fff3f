-- ===== src/Bank.antt =====
-- The bank template (templates/bank/internal).
pub mod Workflow
pub mod CoreBanking
