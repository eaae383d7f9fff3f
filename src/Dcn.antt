-- ===== src/Dcn.antt =====
-- The distributed bank template (templates/bank_dcn/internal).
pub mod Segments
pub mod Rmb
