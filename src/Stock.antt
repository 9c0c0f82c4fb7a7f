-- ===== src/Stock.antt =====
-- The admin stock commands.
pub mod Commands
pub mod Runs
pub mod Effects
pub mod Ledger
pub mod Valid
pub mod Replay
pub mod SafetyStock
pub mod Adjust
