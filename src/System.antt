-- ===== src/System.antt =====
-- The service's write operations in any order, by any callers. Each is one transaction, and the row
-- locks and unique indexes make transactions that touch the same rows take effect one after another;
-- what a transaction saw before its locks is in its Env.
pub mod Calls
pub mod Invariants
pub mod Integrity
