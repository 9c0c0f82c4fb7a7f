-- ===== src/Process.antt =====
-- The process: cmd/main.go.
pub mod Start
pub mod Stop
pub mod Safety
pub mod Time
pub mod Seeding
