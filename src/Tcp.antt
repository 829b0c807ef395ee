-- ===== src/Tcp.antt =====
-- Connections over TCP, from the registration of a tunnel to its end: internal/server/tcp.
pub mod Ports
pub mod Registration
pub mod Lifecycle
pub mod Groups
