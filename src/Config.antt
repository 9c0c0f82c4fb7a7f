-- ===== src/Config.antt =====
-- The configuration that the process reads from its environment: config/config.go.
pub mod Env
pub mod Load
pub mod Validate
pub mod Bounds
pub mod Fields
pub mod Servable
