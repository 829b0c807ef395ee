-- ===== src/Tunnel.antt =====
-- The tunnel registry: the package internal/server/tunnel.
pub mod RateLimiter
pub mod Shards
pub mod Manager
pub mod Sections
