-- ===== src/Bank/CoreBanking.antt =====
-- The core ledger of the bank: templates/bank/internal/corebanking. `Types` is its domain and
-- `Cents` its amounts as text, `Posting` makes entries and sums them up, `Tx`, `Store` and `Tables`
-- are the database, and `Services` and `Held` are the services that run transactions on it.
mod Types
mod Posting
mod Tx
mod Store
mod Tables
mod Services
mod Held
pub mod Words
pub mod Moves
pub mod Respected
pub mod Served
pub mod Calls
pub mod Frame
pub mod Kept
pub mod Once
pub mod Sides
pub mod Shares
pub mod Trial
pub mod Posted
pub mod Balanced
pub mod Rounds
pub mod Deltas
pub mod Reserves
pub mod Covered
pub mod Ended
mod Cents
pub mod Digits
pub mod Amounts
mod Runs
mod Tests
unfoldable pub use Types.*
unfoldable pub use Posting.*
unfoldable pub use Tx.*
unfoldable pub use Store.*
unfoldable pub use Tables.*
unfoldable pub use Services.*
unfoldable pub use Held.*
