-- ===== src/Examples/Connecting.antt =====
-- The client and the configuration files at concrete inputs.
use drip_ex.Base.{
  length, All, Bytes, codes, str_eq, to_lower, trim_space, strip_prefix, ok, err, pos, ◌≤◌, ◌≡◌,
  refl, ◌↔◌, ◌⊎◌, true, false, Option, none, some, List, [], ◌∷◌,
}
use drip_ex.Client.Pool.{session_count}
use drip_ex.Client.Pool.Bounds.{Move, begins, settles, ticks, connected, moves, moves-IsBounded}
use drip_ex.Client.Supervisor.{
  refused, served, turns, turn, contains, is_configuration_error, is_non_retryable_error,
  is_fatal_tunnel_error, supervision,
}
use drip_ex.Client.Supervisor.Backoff.{turns_connected}
use drip_ex.Config.Server.{ServerConfig, validate}
use drip_ex.Config.Server.Servable.{IsServable, validate_iff}
use drip_ex.Config.Tunnels.{
  TunnelConfig, ClientConfig, IsStartable, get_tunnel, validate_client, validate_tunnels,
  validate_tunnel, is_known_type, is_known_transport, normalize_server_address,
  get_tunnel-validate_client,
}

abbrev some_moves : List Move
some_moves = begins ∷ begins ∷ settles 5 (some (codes "d1")) ∷ ticks 9 300 (none ∷ []) ∷ []

moves-IsBounded_example :
    (session_count (moves some_moves (connected 1 (pos 2) (pos 3) (pos 0))).pool
      ≤ (moves some_moves (connected 1 (pos 2) (pos 3) (pos 0))).pool.max_sessions)
    × ((moves some_moves (connected 1 (pos 2) (pos 3) (pos 0))).pool.desired_total
        ≤ (moves some_moves (connected 1 (pos 2) (pos 3) (pos 0))).pool.max_sessions)
    × ((moves some_moves (connected 1 (pos 2) (pos 3) (pos 0))).pool.pending_sessions
        ≡ (moves some_moves (connected 1 (pos 2) (pos 3) (pos 0))).in_flight)
moves-IsBounded_example = moves-IsBounded 1 (pos 2) (pos 3) (pos 0) some_moves

abbrev denial : Bytes
denial = codes "Invalid authentication token"

tunnel_ended :
    turns ((0, served (codes "acme") none) ∷ (0, refused denial) ∷ []) (supervision []) ≡ err denial
unfolding turns turn supervision is_fatal_tunnel_error is_configuration_error is_non_retryable_error
    contains strip_prefix
tunnel_ended = refl

turns_connected_example :
    (is_configuration_error denial ≡ true)
    ⊎ ((is_non_retryable_error denial ≡ true) × (contains (codes "already taken") denial ≡ false))
turns_connected_example =
    turns_connected 0 (codes "acme") none ((0, refused denial) ∷ []) (supervision []) denial
      tunnel_ended

abbrev bare_server : ServerConfig
bare_server = record {
  port = pos 8443;
  public_port = pos 0;
  domain = codes "x.y";
  tunnel_domain = [];
  tcp_port_min = pos 20000;
  tcp_port_max = pos 30000;
  tls_mode = [];
  tls_enabled = false;
  tls_cert_file = [];
  tls_key_file = [];
  acme = record { dns_provider = []; dns_api_token = []; propagation_timeout_seconds = pos 0 };
  auth_token = [];
  db_path = [];
  reservations_only = false;
  admin_address = [];
  admin_public = false;
  admin_session_hours = pos 0;
  require_auth = false;
  max_request_body_bytes = pos 0;
}

validate_iff_example : (validate bare_server ≡ ok tt) ↔ IsServable bare_server
validate_iff_example = validate_iff bare_server

abbrev site : TunnelConfig
site = record {
  name = codes "site";
  type_name = codes "HTTP";
  port = pos 3000;
  subdomain = [];
  transport = [];
  auth = [];
  auth_bearer = [];
}

abbrev split_at_x : Bytes → Option (Bytes × Bytes)
split_at_x addr = some (codes "x", codes "443")

abbrev client : ClientConfig
client = record { server = codes "x:443"; tunnels = site ∷ [] }

abbrev accepted : ClientConfig
accepted = record client { tunnels = record site { type_name = codes "http" } ∷ [] }

client_accepted : validate_client split_at_x (λ host port. host) (λ s. false) client ≡ ok accepted
unfolding validate_client validate_tunnels validate_tunnel is_known_type is_known_transport
    normalize_server_address to_lower trim_space str_eq
client_accepted = refl

get_tunnel-validate_client_example :
    All IsStartable accepted.tunnels
    × All (λ t. get_tunnel t.name accepted ≡ some t) accepted.tunnels
    × (length accepted.tunnels ≡ length client.tunnels)
get_tunnel-validate_client_example =
    get_tunnel-validate_client split_at_x (λ host port. host) (λ s. false) client accepted
      client_accepted
