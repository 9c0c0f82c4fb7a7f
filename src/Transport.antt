-- ===== src/Transport.antt =====
-- The gRPC edge of Reserve and Release: internal/grpc/v1, and the service of
-- internal/logic/v1/reservations.go between it and the repository.
pub mod Validate
pub mod Wire
pub mod Server
pub mod Reads
pub mod Fit
pub mod Baskets
pub mod Identity
pub mod Resend
pub mod Again
