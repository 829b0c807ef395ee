-- ===== src/Protocol.antt =====
-- The wire protocol: internal/shared/protocol.
pub mod Frames
