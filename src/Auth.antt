-- ===== src/Auth.antt =====
-- Who a client is: internal/server/auth.
pub mod Credentials
pub mod Authenticator
pub mod Passwords
