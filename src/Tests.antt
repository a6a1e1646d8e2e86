-- ===== src/Tests.antt =====
-- Runs of the definitions on concrete rows, and the theorems at them.
pub mod Data
pub mod Ordering
pub mod Cancelling
pub mod Pricing
pub mod Paying
pub mod Printing
pub mod Loyalty
pub mod Reserving
pub mod Visiting
pub mod Maintaining
pub mod Working
pub mod Notifying
pub mod Locking
pub mod Serving
pub mod Wanting
pub mod Reconciling
pub mod Advertising
