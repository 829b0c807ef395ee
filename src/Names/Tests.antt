-- ===== src/Names/Tests.antt =====
-- Runs of the functions on names.
use drip_ex.Base.{codes, ◌≡◌, refl, true, false, none, some}
use drip_ex.Names.Decimal.{atoi}
use drip_ex.Names.{parse_tcp_subdomain_port, validate_subdomain, is_reserved, normalize_tunnel_type}

reads_port : parse_tcp_subdomain_port (codes "tcp-8080") ≡ some 8080
unfolding parse_tcp_subdomain_port atoi
reads_port = refl

reads_sign : parse_tcp_subdomain_port (codes "tcp-+80") ≡ some 80
unfolding parse_tcp_subdomain_port atoi
reads_sign = refl

port_too_big : parse_tcp_subdomain_port (codes "tcp-65536") ≡ none
unfolding parse_tcp_subdomain_port atoi
port_too_big = refl

valid_name : validate_subdomain (codes "my-app1") ≡ true
unfolding validate_subdomain
valid_name = refl

trailing_dash : validate_subdomain (codes "my-app-") ≡ false
unfolding validate_subdomain
trailing_dash = refl

reserved_name : is_reserved (codes "www") ≡ true
unfolding is_reserved
reserved_name = refl

one_family : normalize_tunnel_type (codes " HTTPS ") ≡ codes "http"
unfolding normalize_tunnel_type
one_family = refl
