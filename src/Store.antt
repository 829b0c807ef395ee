-- ===== src/Store.antt =====
-- The control plane's tables: the package internal/server/store.
pub mod Reservations
pub mod Database
pub mod Sessions
pub mod Admins
