-- ===== src/Domain.antt =====
-- internal/core/domain: types, errors, validation, aggregation and the canonical hash.
pub mod Types
pub mod Errors
pub mod Validate
pub mod Hash
pub mod Aggregate
pub mod Merge
pub mod Demand
pub mod RoundTrip
pub mod Decode
pub mod Order
pub mod Canonical
