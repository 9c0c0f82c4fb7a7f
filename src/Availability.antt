-- ===== src/Availability.antt =====
-- The reads of availability: the queries of internal/core/repository/availability.go, and the service
-- of internal/logic/v1/availability.go that answers from them.
pub mod Queries
pub mod Service
pub mod Groups
pub mod Batch
pub mod Names
pub mod Check
pub mod Covers
pub mod Agreement
