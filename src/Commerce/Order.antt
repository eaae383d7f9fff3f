-- ===== src/Commerce/Order.antt =====
-- The orders of templates/commerce/internal/order.
mod State
mod Tests
mod Money
mod Checked
pub mod Lines
pub mod Totals
pub mod Lifecycle
pub mod Discount
unfoldable pub use State.*
unfoldable pub use Money.*
