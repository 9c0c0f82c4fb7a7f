-- ===== src/Lifecycle.antt =====
-- What becomes of a reservation after the call that made it: retries, transitions and later calls.
pub mod Placed
pub mod Replay
pub mod Tables
pub mod Settled
pub mod Effects
pub mod Ready
pub mod Lined
pub mod Unhindered
pub mod Later
pub mod Histories
pub mod Safety
