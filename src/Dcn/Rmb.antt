-- ===== src/Dcn/Rmb.antt =====
-- The coordinator of transactions across units: templates/bank_dcn/internal/rmb/coordinator.go.
-- `Types` has its rows and messages, `Steps` the reading and writing of the steps, `Coordinator` the
-- handlers.
mod Types
mod Steps
mod Coordinator
pub mod Counts
pub mod Changes
pub mod Outcome
pub mod Keeping
pub mod Safety
pub mod Settling
pub mod Settled
mod Tests
