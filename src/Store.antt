-- ===== src/Store.antt =====
-- The database: the tables, the SQL statements that the repositories send, and transactions.
pub mod Rows
pub mod Balances
pub mod Movements
pub mod Reservations
pub mod Database
pub mod Valid
pub mod Ledger
pub mod Atp
