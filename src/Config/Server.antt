-- ===== src/Config/Server.antt =====
-- The server's configuration: pkg/config/config.go. Reading and writing the file are left out.
pub mod Servable
use drip_ex.Base.{
  str_eq_iff, ℕ, ◌≤◌, ◌==◌, if◌then◌else◌, Bool-cases, Bytes, codes, str_eq, is_empty, is_empty_ne,
  ne_is_empty, to_lower, trim_space, contains_byte, Result, refuse_if, ◌>>=◌, ◌>>◌, >>=-eq-ok, ℤ,
  ltb_ℤ, ok, err, pos, negsuc, ◌≡◌, ◌≢◌, ◌↔◌, ◌⊎◌, inl, inr, Bool, true, false, not, ◌&&◌, ◌||◌, [],
  arith,
}

pub record Acme : Type 0 where
  pub dns_provider : Bytes
  pub dns_api_token : Bytes
  pub propagation_timeout_seconds : ℤ

-- The fields that `Validate` reads.
pub record ServerConfig : Type 0 where
  pub port : ℤ
  pub public_port : ℤ
  pub domain : Bytes
  pub tunnel_domain : Bytes
  pub tcp_port_min : ℤ
  pub tcp_port_max : ℤ
  pub tls_mode : Bytes
  pub tls_enabled : Bool
  pub tls_cert_file : Bytes
  pub tls_key_file : Bytes
  pub acme : Acme
  pub auth_token : Bytes
  pub db_path : Bytes
  pub reservations_only : Bool
  pub admin_address : Bytes
  pub admin_public : Bool
  pub admin_session_hours : ℤ
  pub require_auth : Bool
  pub max_request_body_bytes : ℤ

pub data ConfigError : Type 0 where
  bad_port bad_public_port no_domain bad_domain bad_tunnel_domain : ConfigError
  bad_tcp_port_min bad_tcp_port_max bad_tcp_range unknown_tls_mode : ConfigError
  no_certificate no_key no_dns_provider no_dns_token negative_timeout : ConfigError
  negative_body no_credentials panel_without_db public_without_db public_without_domain :
      ConfigError
  public_without_address negative_hours reservations_without_db : ConfigError

pub data TlsMode : Type 0 where
  plain manual acme_dns : TlsMode

unfoldable pub is_out_of_ports : ℤ → Bool
is_out_of_ports n = ltb_ℤ n (pos 1) || ltb_ℤ (pos 65535) n

-- `ResolveTLSMode`.
unfoldable pub resolve_tls_mode : ServerConfig → Result ConfigError TlsMode
resolve_tls_mode c =
    let mode = to_lower (trim_space c.tls_mode) in
    if not (is_empty c.tls_mode)
    then (if str_eq mode (codes "none")
        then ok plain
        else if str_eq mode (codes "manual")
        then ok manual
        else if str_eq mode (codes "acme")
        then ok acme_dns
        else err unknown_tls_mode)
    else if not (is_empty c.acme.dns_provider)
    then ok acme_dns
    else if c.tls_enabled || (not (is_empty c.tls_cert_file) && not (is_empty c.tls_key_file))
    then ok manual
    else ok plain

abbrev pub check_tls : ServerConfig → TlsMode → Result ConfigError (Unit {0})
check_tls c plain = ok tt
check_tls c manual = do
  refuse_if (is_empty c.tls_cert_file) no_certificate
  refuse_if (is_empty c.tls_key_file) no_key
check_tls c acme_dns = do
  refuse_if (is_empty c.acme.dns_provider) no_dns_provider
  refuse_if (is_empty c.acme.dns_api_token) no_dns_token
  refuse_if (ltb_ℤ c.acme.propagation_timeout_seconds (pos 0)) negative_timeout

abbrev pub is_zero : ℤ → Bool
is_zero (pos n) = n == 0
is_zero (negsuc n) = false

unfoldable pub check_addresses : ServerConfig → Result ConfigError (Unit {0})
check_addresses c = do
  refuse_if (is_out_of_ports c.port) bad_port
  refuse_if (not (is_zero c.public_port) && is_out_of_ports c.public_port) bad_public_port
  refuse_if (is_empty c.domain) no_domain
  refuse_if (contains_byte b':' c.domain) bad_domain
  refuse_if (contains_byte b':' c.tunnel_domain) bad_tunnel_domain
  refuse_if (is_out_of_ports c.tcp_port_min) bad_tcp_port_min
  refuse_if (is_out_of_ports c.tcp_port_max) bad_tcp_port_max
  refuse_if (not (ltb_ℤ c.tcp_port_min c.tcp_port_max)) bad_tcp_range

unfoldable pub check_panel : ServerConfig → Result ConfigError (Unit {0})
check_panel c = do
  refuse_if (ltb_ℤ c.max_request_body_bytes (pos 0)) negative_body
  refuse_if (c.require_auth && is_empty c.db_path && is_empty c.auth_token) no_credentials
  refuse_if (not (is_empty c.admin_address) && is_empty c.db_path) panel_without_db
  refuse_if (c.admin_public && is_empty c.db_path) public_without_db
  refuse_if (c.admin_public && is_empty c.domain) public_without_domain
  refuse_if (c.admin_public && is_empty c.admin_address) public_without_address
  refuse_if (ltb_ℤ c.admin_session_hours (pos 0)) negative_hours
  refuse_if (c.reservations_only && is_empty c.db_path) reservations_without_db

unfoldable pub validate : ServerConfig → Result ConfigError (Unit {0})
validate c = do check_addresses c; mode ← resolve_tls_mode c; check_tls c mode; check_panel c
