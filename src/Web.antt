-- ===== src/Web.antt =====
-- The HTTP API of the back office: internal/web/v1/router.go.
pub mod Wire
pub mod Handlers
pub mod Serve
pub mod Posts
pub mod Warehouses
pub mod Access
pub mod Replies
