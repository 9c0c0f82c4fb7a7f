-- ===== src/Tests.antt =====
-- Runs of the operations on small inputs, and the theorems at such inputs.
mod Data
mod Stock
mod Reservations
mod Invariants
mod Commands
mod Reads
mod Lifecycle
mod Lines
mod Edge
mod Office
mod Startup
mod Unhindered
