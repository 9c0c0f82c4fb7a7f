-- ===== src/Reservations.antt =====
-- The reservation write side.
pub mod Allocate
pub mod AtpMaps
pub mod Reserve
pub mod Transition
pub mod Steps
pub mod Lines
pub mod Held
pub mod Loops
pub mod Gate
pub mod Cases
pub mod Ledger
