-- ===== src/Admin.antt =====
-- The protected back office: internal/core/repository/admin_reads.go and
-- internal/core/domain/admin_views.go, under internal/logic/v1/admin.go.
pub mod Views
pub mod Reads
pub mod Pages
pub mod Complete
pub mod Service
