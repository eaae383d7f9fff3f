-- ===== src/Commerce/Inventory.antt =====
-- Stock levels and reservations: templates/commerce/internal/inventory/model.go.
-- A method on a value returns the new values and its error, `none` for nil. An `error` is the
-- sentinel that it wraps; its text is left out. A time is a number, 0 for Go's zero time.
mod Model
pub mod Levels
pub mod Ledger
pub mod Store
pub mod Service
mod Tests
unfoldable pub use Model.*
