-- ===== src/Orders.antt =====
-- OrderService of app/services/orders.py, one module for each group of its methods.
pub mod Errors
pub mod Pricing
pub mod Preview
pub mod Access
pub mod Idempotency
pub mod Lines
pub mod Placing
pub mod Create
pub mod Cancel
pub mod Guarantees
