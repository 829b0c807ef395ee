-- ===== src/Names/Ports.antt =====
-- The names of TCP tunnels carry their port.
use drip_ex.Base.{pos, ℕ, ◌≤◌, ◌≡◌, subst, some, ◌∷◌, arith}
use drip_ex.Names.Decimal.{atoi, atoi-show, show-cons}
use drip_ex.Names.{tcp_name, parse_tcp_subdomain_port}

-- The name that the server gives to a TCP tunnel on a port from 1 to 65535 reads back as that
-- port.
pub parse-tcp_name :
    (port : ℕ) → 1 ≤ port → port ≤ 65535 → parse_tcp_subdomain_port (tcp_name port) ≡ some port
unfolding parse_tcp_subdomain_port tcp_name
parse-tcp_name port lo hi =
    let (c, s, p) = show-cons port in
    let back : atoi (c ∷ s) ≡ some (pos port) =
      subst (λ t. atoi t ≡ some (pos port)) p (atoi-show port (omega arith)) in
    rw (p, back) (ground arith)
