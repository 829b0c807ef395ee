-- ===== src/Examples/Serving.antt =====
-- Ports and whole registrations at concrete inputs.
use drip_ex.Base.{
  ◌==◌, Bytes, codes, str_eq, to_lower, trim_space, lookup, insert, increment, ok, pos, ℕ, ◌+◌, ◌*◌,
  ◌%◌, ◌≡◌, refl, Bool, true, false, not, none, some, [], arith,
}
use drip_ex.Names.{
  http, tcp, normalize_tunnel_type, validate_subdomain, subdomain_regex, matches_tail, is_reserved,
}
use drip_ex.Tunnel.Manager.{
  ManagerConfig, new_manager_with_config, get, register_owned, admit, reserve_global,
  reserve_account, reserve_ip, name_tunnel, claim, claim_custom, settle, register_subdomain,
  is_limited,
}
use drip_ex.Tunnel.Shards.{find, put_tunnel, shard_index, fnv32a}
use drip_ex.Tunnel.Manager.Books.{IsValid, new-IsValid, new-HasIpBooks}
use drip_ex.Tunnel.Manager.Registry.{IsRandom}
use drip_ex.Resolver.{
  resolution_for, reservation_subdomain, check_ownership, resolve, resolve_stored, resolve_http,
}
use drip_ex.Tcp.Ports.{
  PortAllocator, new_port_allocator, allocate, allocate_specific, take_listener, release,
}
use drip_ex.Tcp.Ports.Held.{IsPortTable, IsDraw, new-IsPortTable, operations-IsPortTable}
use drip_ex.Tcp.Registration.{
  World, RegistrationRequest, RegistrationHandler, RegistrationResult, register, with_resolution,
  with_port, registered, finish, registration_result, resolve_request, take_port, record_session,
}
use drip_ex.Examples.Resolving.{acme, shelf}
use drip_ex.Tcp.Registration.Valid.{IsInOrder, register-IsInOrder}
use drip_ex.Tcp.Registration.Outcomes.{SameTables}
use drip_ex.Tcp.Lifecycle.{Lifecycle, Shared, close_connection}
use drip_ex.Tcp.Lifecycle.Restored.{ended, close-register}
use drip_ex.Tcp.Registration.Atomic.{Served, register-Served}

abbrev ports : PortAllocator
ports = record { min_port = 20000; max_port = 20009; used = λ q. false; listeners = λ q. false }

ports_made : new_port_allocator (pos 20000) (pos 20009) ≡ ok ports
unfolding new_port_allocator
ports_made = refl

ports-IsPortTable : IsPortTable ports
ports-IsPortTable = new-IsPortTable (pos 20000) (pos 20009) ports ports_made

abbrev draw : ℕ → ℕ
draw i = (i * 3 + 1) % 10

abbrev listens : ℕ → ℕ → Bool
listens i port = not (port == 20001)

draw-IsDraw : IsDraw ports draw
draw-IsDraw i = omega arith

operations-IsPortTable_example :
    IsPortTable (allocate draw listens ports).0
    × IsPortTable (allocate_specific true 20005 ports).0
    × IsPortTable (take_listener 20005 ports).0
    × IsPortTable (release 20005 ports)
operations-IsPortTable_example =
    operations-IsPortTable draw listens true 20005 ports draw-IsDraw ports-IsPortTable

abbrev settings : ManagerConfig
settings = record {
  max_tunnels = pos 100;
  max_tunnels_per_ip = pos 5;
  rate_limit = pos 3;
  rate_limit_window = pos 1000;
}

abbrev dice : ℕ → ℕ → ℕ
dice i j = (i * 7 + j * 5 + 3) % 36

dice-IsRandom : IsRandom dice
dice-IsRandom i j = omega arith

abbrev world : World
world = record { now = 10; names = dice; draw = draw; can_listen = listens }

abbrev server : RegistrationHandler
server = record {
  manager = new_manager_with_config settings;
  port_alloc = some ports;
  has_group_manager = true;
  resolver = none;
  sessions = none;
  tunnel_domain = codes "example.com";
  public_port = 443;
}

abbrev asks_tcp : RegistrationRequest
asks_tcp = record {
  tunnel_type = tcp;
  custom_subdomain = [];
  connection_type = codes "primary";
  has_pool_capabilities = true;
  ip_access = none;
  proxy_auth = none;
  local_port = 3000;
  remote_ip = codes "10.0.0.1";
  owner = record { client_id = []; account_id = []; max_tunnels = 0 };
}

server-IsInOrder : IsInOrder world server asks_tcp server
server-IsInOrder = record {
  valid = new-IsValid settings;
  ips = new-HasIpBooks settings;
  ports = ports-IsPortTable;
}

register-IsInOrder_example : IsInOrder world server asks_tcp (register world server asks_tcp).0
register-IsInOrder_example =
    register-IsInOrder world server asks_tcp server-IsInOrder draw-IsDraw dice-IsRandom

register-Served_example : Served world server asks_tcp (register world server asks_tcp)
register-Served_example =
    register-Served world server asks_tcp ports-IsPortTable draw-IsDraw dice-IsRandom
      (new-IsValid settings)

abbrev closed_server : RegistrationHandler
closed_server = record server {
  resolver = some (record { store = some shelf; require_reservation = true });
}

-- A client of the account that names its reservation.
abbrev asks_acme : RegistrationRequest
asks_acme = record asks_tcp {
  tunnel_type = http;
  custom_subdomain = codes "acme";
  owner = record { client_id = codes "laptop"; account_id = codes "team"; max_tunnels = 2 };
}

abbrev answer : RegistrationResult
answer = registration_result closed_server asks_acme (resolution_for acme) (codes "acme") 0

abbrev after : RegistrationHandler
after = (register world closed_server asks_acme).0

acme_served : register world closed_server asks_acme ≡ (after, ok answer)
unfolding register with_resolution with_port registered finish resolve_request take_port resolve
    resolve_stored resolve_http check_ownership resolution_for reservation_subdomain register_owned
    admit reserve_global reserve_account reserve_ip name_tunnel claim claim_custom settle
    register_subdomain is_limited new_manager_with_config get find put_tunnel shard_index fnv32a
    lookup insert str_eq to_lower trim_space normalize_tunnel_type validate_subdomain
    subdomain_regex matches_tail is_reserved increment registration_result record_session
acme_served = refl

closed_server-IsInOrder : IsInOrder world closed_server asks_acme closed_server
closed_server-IsInOrder = record {
  valid = new-IsValid settings;
  ips = new-HasIpBooks settings;
  ports = ports-IsPortTable;
}

-- No groups of connections.
abbrev no_groups : Bytes → Bool → Bool
no_groups tunnel_id groups = groups

abbrev acme_ended : Lifecycle × Shared Bool
acme_ended = ended no_groups world closed_server after asks_acme answer none none

close-register_example :
    (get acme_ended.1.manager (codes "acme") ≡ get closed_server.manager (codes "acme"))
    × SameTables closed_server.port_alloc acme_ended.1.port_alloc
    × IsValid acme_ended.1.manager
    × (close_connection no_groups acme_ended ≡ acme_ended)
close-register_example =
    close-register no_groups world closed_server after asks_acme answer none none
      closed_server-IsInOrder draw-IsDraw dice-IsRandom (codes "acme") acme_served
