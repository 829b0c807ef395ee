-- ===== src/Tcp/Registration.antt =====
-- internal/server/tcp/registration_handler.go: a registration from the request to the answer. It
-- asks the resolver, takes a port, registers the tunnel with the manager and configures it, and
-- gives back what it took where a later step fails. The request's `CustomSubdomain`, which the source
-- overwrites on the way, is passed along. What the system and the random numbers answer is `World`.
pub mod Outcomes
pub mod Atomic
pub mod Closed
pub mod Valid
use drip_ex.Base.{
  ltb, leb, ◌==◌, if◌then◌else◌, ==_iff, Bool-cases, and-eq-true, Option-cases, is_some, or_default,
  length, get_or, set, take, drop, replicate, all, any, find?, select, All, length-append,
  length-set, get_or-set_self, get_or-set_ne, take-length_append, drop-length_append, Bytes, codes,
  str_eq, str_eq_iff, str_eq_refl, is_empty, is_empty_ne, ne_is_empty, is_upper, is_digit, is_space,
  lower_byte, upper_byte, to_lower, to_upper, trim_left, trim_space, strip_prefix, contains_byte,
  equal_fold, Map, lookup, insert, delete, lookup-insert, lookup-delete, Distinct, insert-Distinct,
  delete-Distinct, delete_absent, count, count-insert, count-delete, tally, increment, decrement,
  tally-increment, tally-decrement, decrement-increment, Result, refuse_if, ◌>>=◌, ◌>>◌, >>=-eq-ok,
  ℤ, pos_part, neg_part, ◌≤ℤ◌, ltb_ℤ, ok, err, pos, negsuc, ℕ, zero, suc, ◌+◌, ◌-◌, ◌*◌, ◌/◌, ◌%◌,
  ◌^◌, ◌≤◌, ◌<◌, min, bit_xor, String, ◌≡◌, refl, sym, ap, subst, ◌∙◌, ◌≢◌, ◌↔◌, ◌⊎◌, inl, inr,
  Bool, true, false, not, ◌&&◌, ◌||◌, Option, none, some, List, [], ◌∷◌, ◌++◌, map, arith,
  ℕ_discrete,
}
use drip_ex.Names.{tcp, tcp_name, parse_tcp_subdomain_port, TunnelUrlBuilder, build_url}
use drip_ex.Tunnel.Shards.{IpAccess, ProxyAuth, Connection, Shard, put_tunnel}
use drip_ex.Tunnel.Manager.{Manager, Owner, Error, register_owned, get, unregister}
use drip_ex.Resolver.{Request, Resolution, Resolver, ResolveError, ephemeral, resolve}
use drip_ex.Tcp.Ports.{PortAllocator, PortError, allocate, allocate_specific, release}

pub record World : Type 0 where
  pub now : ℕ
  -- The random numbers of generated names, and of random ports.
  pub names : ℕ → ℕ → ℕ
  pub draw : ℕ → ℕ
  -- Whether the server can listen on a port, at an attempt.
  pub can_listen : ℕ → ℕ → Bool

pub record RegistrationRequest : Type 0 where
  pub tunnel_type : Bytes
  pub custom_subdomain : Bytes
  pub connection_type : Bytes
  -- `PoolCapabilities` is not nil.
  pub has_pool_capabilities : Bool
  pub ip_access : Option IpAccess
  pub proxy_auth : Option ProxyAuth
  pub local_port : ℕ
  pub remote_ip : Bytes
  pub owner : Owner

-- The row of `store.Session` that is written for a live tunnel.
pub record Session : Type 0 where
  pub account_id : Bytes
  pub client_id : Bytes
  pub reservation_id : Option Bytes
  pub tunnel_type : Bytes
  pub subdomain : Bytes
  pub tcp_port : ℕ
  pub local_port : ℕ
  pub remote_ip : Bytes

pub record RegistrationHandler : Type 0 where
  pub manager : Manager
  -- The next four are `none` or `false` where the source has nil.
  pub port_alloc : Option PortAllocator
  pub has_group_manager : Bool
  pub resolver : Option Resolver
  -- The id of the row, or `none` where `CreateSession` fails.
  pub sessions : Option (Session → Option Bytes)
  pub tunnel_domain : Bytes
  pub public_port : ℕ

pub record RegistrationResult : Type 0 where
  pub subdomain : Bytes
  pub port : ℕ
  pub reservation_id : Bytes
  pub session_id : Bytes
  pub bandwidth : Bytes
  pub tunnel_url : Bytes
  pub tunnel_id : Bytes
  pub supports_data_conn : Bool
  pub recommended_conns : ℕ

pub data RegistrationError : Type 0 where
  resolve_failed : ResolveError → RegistrationError
  no_port_allocator tunnel_missing : RegistrationError
  port_failed : PortError → RegistrationError
  tunnel_failed : Error → RegistrationError

abbrev pub is_tcp : RegistrationRequest → Bool
is_tcp req = str_eq req.tunnel_type tcp

-- A name is live if the manager finds a tunnel under it.
abbrev pub is_active : Manager → Bytes → Bool
is_active m name = is_some (get m name)

abbrev pub resolver_request : RegistrationRequest → Request
resolver_request req = record {
  account_id = req.owner.account_id;
  client_id = req.owner.client_id;
  tunnel_type = req.tunnel_type;
  requested_subdomain = req.custom_subdomain;
  requested_tcp_port =
      if is_tcp req then or_default 0 (parse_tcp_subdomain_port req.custom_subdomain) else 0;
}

abbrev pub resolve_with_resolver :
    Option Resolver → Manager → RegistrationRequest → Result ResolveError Resolution
resolve_with_resolver none m req = ok (ephemeral req.custom_subdomain 0)
resolve_with_resolver (some r) m req = resolve r (is_active m) (resolver_request req)

unfoldable pub resolve_request :
    RegistrationHandler → RegistrationRequest → Result ResolveError Resolution
resolve_request rh req = resolve_with_resolver rh.resolver rh.manager req

-- The port that is asked for, 0 for any.
unfoldable pub requested_port : Resolution → ℕ
requested_port res =
    if res.tcp_port == 0
    then or_default 0 (parse_tcp_subdomain_port res.subdomain)
    else res.tcp_port

-- The allocator's answer, with the name to register under.
abbrev pub named :
    (ℕ → Bytes)
    → PortAllocator × Result PortError ℕ
    → Option PortAllocator × Result RegistrationError (ℕ × Bytes)
named name (p, ok port) = (some p, ok (port, name port))
named name (p, err e) = (some p, err (port_failed e))

abbrev pub allocate_port :
    World → Resolution → PortAllocator → Option PortAllocator × Result RegistrationError (ℕ × Bytes)
allocate_port w res p =
    let requested = requested_port res in
    if ltb 0 requested
    then named (λ port. res.subdomain) (allocate_specific (w.can_listen 0 requested) requested p)
    else named (λ port. if is_empty res.subdomain then tcp_name port else res.subdomain)
        (allocate w.draw w.can_listen p)

-- The port of a TCP tunnel, 0 for others, and the name to register under.
unfoldable pub take_port :
    World
    → Bool
    → Resolution
    → Option PortAllocator
    → Option PortAllocator × Result RegistrationError (ℕ × Bytes)
take_port w false res ports = (ports, ok (0, res.subdomain))
take_port w true res none = (none, err no_port_allocator)
take_port w true res (some p) = allocate_port w res p

abbrev pub give_back : ℕ → Option PortAllocator → Option PortAllocator
give_back port none = none
give_back port (some p) = if ltb 0 port then some (release port p) else some p

abbrev has_rules : IpAccess → Bool
has_rules a = ltb 0 (length a.allow_ips) || ltb 0 (length a.deny_ips)

abbrev new_ip_access : Option IpAccess → Option IpAccess → Option IpAccess
new_ip_access none before = before
new_ip_access (some a) before = if has_rules a then some a else before

abbrev new_proxy_auth : Option ProxyAuth → Option ProxyAuth → Option ProxyAuth
new_proxy_auth none before = before
new_proxy_auth (some a) before = if a.enabled then some a else before

-- `SetTunnelType`, `SetIPAccessControl` and `SetProxyAuth`.
unfoldable pub configure : RegistrationRequest → Connection → Connection
configure req c = record c {
  tunnel_type = req.tunnel_type;
  ip_access = new_ip_access req.ip_access c.ip_access;
  proxy_auth = new_proxy_auth req.proxy_auth c.proxy_auth;
}

abbrev written : Option (Session → Option Bytes) → Session → Bytes
written none session = []
written (some create) session = or_default [] (create session)

-- A session that cannot be written costs the client nothing.
unfoldable pub record_session :
    RegistrationHandler → RegistrationRequest → Resolution → Bytes → ℕ → Bytes
record_session rh req res subdomain port = written rh.sessions (record {
  account_id = req.owner.account_id;
  client_id = req.owner.client_id;
  reservation_id = if is_empty res.reservation_id then none else some res.reservation_id;
  tunnel_type = req.tunnel_type;
  subdomain = subdomain;
  tcp_port = port;
  local_port = req.local_port;
  remote_ip = req.remote_ip;
})

unfoldable pub registration_result :
    RegistrationHandler → RegistrationRequest → Resolution → Bytes → ℕ → RegistrationResult
registration_result rh req res subdomain port =
    let pooled =
      req.has_pool_capabilities
      && str_eq req.connection_type (codes "primary")
      && rh.has_group_manager in
    record {
      subdomain = subdomain;
      port = port;
      reservation_id = res.reservation_id;
      session_id = record_session rh req res subdomain port;
      bandwidth = res.bandwidth;
      tunnel_url =
          build_url (record { tunnel_domain = rh.tunnel_domain; public_port = rh.public_port })
            subdomain req.tunnel_type port;
      tunnel_id = [];
      supports_data_conn = pooled;
      recommended_conns = if pooled then 4 else 0;
    }

-- The registered tunnel is looked up and configured where it stands.
unfoldable pub finish :
    RegistrationHandler
    → RegistrationRequest
    → Resolution
    → Bytes
    → ℕ
    → Option Connection
    → RegistrationHandler × Result RegistrationError RegistrationResult
finish rh req res subdomain port none = (
  record rh {
    manager = unregister subdomain rh.manager;
    port_alloc = give_back port rh.port_alloc;
  },
  err tunnel_missing,
)
finish rh req res subdomain port (some c) =
    let m = rh.manager in
    (
      record rh { manager = record m { shards = put_tunnel m.shards subdomain (configure req c) } },
      ok (registration_result rh req res subdomain port),
    )

-- What the manager answers to the registration.
unfoldable pub registered :
    RegistrationHandler
    → RegistrationRequest
    → Resolution
    → ℕ
    → Manager × Result Error Bytes
    → RegistrationHandler × Result RegistrationError RegistrationResult
registered rh req res port (m, err e) =
    (record rh { manager = m; port_alloc = give_back port rh.port_alloc }, err (tunnel_failed e))
registered rh req res port (m, ok subdomain) =
    finish (record rh { manager = m }) req res subdomain port (get m subdomain)

unfoldable pub with_port :
    World
    → RegistrationHandler
    → RegistrationRequest
    → Resolution
    → Option PortAllocator × Result RegistrationError (ℕ × Bytes)
    → RegistrationHandler × Result RegistrationError RegistrationResult
with_port w rh req res (ports, err e) = (record rh { port_alloc = ports }, err e)
with_port w rh req res (ports, ok (port, name)) =
    registered (record rh { port_alloc = ports }) req res port
      (register_owned w.now w.names name req.remote_ip req.owner rh.manager)

unfoldable pub with_resolution :
    World
    → RegistrationHandler
    → RegistrationRequest
    → Result ResolveError Resolution
    → RegistrationHandler × Result RegistrationError RegistrationResult
with_resolution w rh req (err e) = (rh, err (resolve_failed e))
with_resolution w rh req (ok res) =
    with_port w rh req res (take_port w (is_tcp req) res rh.port_alloc)

unfoldable pub register :
    World
    → RegistrationHandler
    → RegistrationRequest
    → RegistrationHandler × Result RegistrationError RegistrationResult
register w rh req = with_resolution w rh req (resolve_request rh req)
