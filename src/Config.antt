-- ===== src/Config.antt =====
-- The configuration files of both sides: pkg/config.
pub mod Server
pub mod Tunnels
