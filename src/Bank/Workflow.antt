-- ===== src/Bank/Workflow.antt =====
-- The durable workflow engine: templates/bank/internal/platform/workflow. `Types` and `Registry` are
-- its contracts, `Tx` is one transaction on one instance, `Engine` sends the commands, `Results`, `Resume` and `Admin` are what runs inside
-- such a transaction, and `Store` runs them against all the instances.
mod Types
mod Registry
mod Tx
mod Engine
mod Results
mod Resume
mod Admin
mod Store
mod Operations
mod Recovery
pub mod Ladder
pub mod Ensures
pub mod Invariant
pub mod Soundness
pub mod Undoing
pub mod Transactions
pub mod Operators
pub mod Repairs
pub mod Rows
pub mod Reach
pub mod Once
pub mod Outcomes
mod Runs
mod Tests
pub mod Lookup
pub mod Progress
pub mod Sweeps
pub mod Freed
unfoldable pub use Types.*
unfoldable pub use Registry.*
unfoldable pub use Tx.*
unfoldable pub use Engine.*
unfoldable pub use Results.*
unfoldable pub use Resume.*
unfoldable pub use Admin.*
