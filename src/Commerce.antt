-- ===== src/Commerce.antt =====
-- The shop: templates/commerce.
pub mod Inventory
pub mod Order
pub mod Payment
pub mod Breaker
