-- ===== src/Commerce/Inventory/Store.antt =====
-- The inventory's tables and transactions: templates/commerce/internal/inventory/store.go over
-- templates/commerce/db/migrations/inventory_db.sql. `Rows` has the tables and their statements,
-- `Reserve` and `Transition` the two transactions.
pub mod Rows
pub mod Reserve
pub mod Transition
pub mod Facts
pub mod Sound
pub mod Places
pub mod Filled
pub mod Visits
pub mod Lines
pub mod Moved
pub mod Pending
pub mod Effects
pub mod Agreed
pub mod Rounds
pub mod Kept
pub mod Anew
