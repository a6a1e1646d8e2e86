-- ===== src/Models.antt =====
-- The rows of app/models, one record for each table. Instants are microseconds since the epoch,
-- in UTC; amounts of the type Numeric(10, 2) are whole cents; text that the program only stores or
-- compares is a `String`.
mod Status
pub mod Rows
pub use Status.*
