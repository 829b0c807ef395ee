-- ===== src/Client.antt =====
-- The client: internal/client.
pub mod Pool
pub mod Supervisor
