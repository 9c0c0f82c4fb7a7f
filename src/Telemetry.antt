-- ===== src/Telemetry.antt =====
-- What the logic layer reports: internal/logic/v1/metrics.go and tracing.go, and the reports of
-- internal/logic/v1/reservations.go and availability.go.
pub mod Signals
pub mod Services
pub mod Agreement
