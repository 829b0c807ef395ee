-- ===== src/Admin.antt =====
-- The administration panel: internal/server/admin.
pub mod LoginLimiter
pub mod Panel
pub mod Resources
