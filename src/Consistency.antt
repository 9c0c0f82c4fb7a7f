-- ===== src/Consistency.antt =====
-- The invariant of the whole store, which no single CHECK states: what the balances call reserved is
-- what the open reservations' lines add up to.
pub mod Defs
pub mod Schema
pub mod Reserving
pub mod Closing
pub mod Stocking
pub mod Intact
pub mod Supply
