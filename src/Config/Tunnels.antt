-- ===== src/Config/Tunnels.antt =====
-- The client's configuration: pkg/config/client_config.go. `net.SplitHostPort`, `net.JoinHostPort`
-- and `net.ParseIP` are parameters; reading and writing the file are left out.
use drip_ex.Base.{
  if◌then◌else◌, length, any, find?, All, Bytes, codes, str_eq, str_eq_iff, str_eq_refl, is_empty,
  to_lower, trim_space, contains_byte, trim_brackets, count, Result, refuse_if, ◌>>=◌, ◌>>◌,
  >>=-eq-ok, ℤ, ltb_ℤ, All-weaken, All-both, ok, err, pos, suc, ◌≡◌, refl, ap, subst, Bool, true,
  false, not, ◌&&◌, ◌||◌, Option, none, some, List, [], ◌∷◌, ◌++◌, arith,
}

pub record TunnelConfig : Type 0 where
  pub name : Bytes
  pub type_name : Bytes
  pub port : ℤ
  pub subdomain : Bytes
  pub transport : Bytes
  pub auth : Bytes
  pub auth_bearer : Bytes

pub record ClientConfig : Type 0 where
  pub server : Bytes
  pub tunnels : List TunnelConfig

pub data TunnelError : Type 0 where
  no_name no_type bad_type bad_port bad_transport two_secrets : TunnelError
  no_server bad_server no_host no_port duplicate_name : TunnelError

unfoldable pub is_known_type : Bytes → Bool
is_known_type t = str_eq t (codes "http") || str_eq t (codes "https") || str_eq t (codes "tcp")

unfoldable pub is_known_transport : Bytes → Bool
is_known_transport t = str_eq t (codes "auto") || str_eq t (codes "tcp") || str_eq t (codes "wss")

-- The type and the transport in lower case.
abbrev pub lowered : TunnelConfig → TunnelConfig
lowered t = record t { type_name = to_lower t.type_name; transport = to_lower t.transport }

unfoldable pub validate_tunnel : TunnelConfig → Result TunnelError TunnelConfig
validate_tunnel t = do
  refuse_if (is_empty t.name) no_name
  refuse_if (is_empty t.type_name) no_type
  refuse_if (not (is_known_type (to_lower t.type_name))) bad_type
  refuse_if (ltb_ℤ t.port (pos 1) || ltb_ℤ (pos 65535) t.port) bad_port
  refuse_if (not (is_empty t.transport) && not (is_known_transport (to_lower t.transport)))
      bad_transport
  refuse_if (not (is_empty t.auth) && not (is_empty t.auth_bearer)) two_secrets
  ok (lowered t)

abbrev pub is_tunnel : Bytes → TunnelConfig → Bool
is_tunnel name t = str_eq t.name name

-- The loop of `Validate`, with the names that it has seen.
unfoldable pub validate_tunnels :
    List Bytes → List TunnelConfig → Result TunnelError (List TunnelConfig)
validate_tunnels names [] = ok []
validate_tunnels names (t ∷ rest) = do
  valid ← validate_tunnel t
  refuse_if (any (str_eq t.name) names) duplicate_name
  later ← validate_tunnels (t.name ∷ names) rest
  ok (valid ∷ later)

-- `GetTunnel`; `none` is nil.
unfoldable pub get_tunnel : Bytes → ClientConfig → Option TunnelConfig
get_tunnel name c = find? (is_tunnel name) c.tunnels

abbrev pub default_server_port : Bytes
default_server_port = codes "443"

module _ (split_host_port : Bytes → Option (Bytes × Bytes)) (join_host_port : Bytes → Bytes → Bytes)
    (is_ip : Bytes → Bool) where
  abbrev port_or_default : Bytes → Option (Bytes × Bytes) → Bytes
  port_or_default addr (some (host, [])) = join_host_port host default_server_port
  port_or_default addr (some (host, c ∷ port)) = addr
  port_or_default addr none =
      let bare = trim_brackets addr in
      if is_ip bare
      then join_host_port bare default_server_port
      else if contains_byte b':' addr
      then addr
      else addr ++ (b':' ∷ default_server_port)

  unfoldable pub normalize_server_address : Bytes → Bytes
  normalize_server_address addr =
      let trimmed_addr = trim_space addr in
      if is_empty trimmed_addr
      then trimmed_addr
      else port_or_default trimmed_addr (split_host_port trimmed_addr)

  abbrev check_server : Option (Bytes × Bytes) → Result TunnelError (Unit {0})
  check_server none = err bad_server
  check_server (some (host, port)) = do
    refuse_if (is_empty host) no_host
    refuse_if (is_empty port) no_port

  unfoldable pub validate_client : ClientConfig → Result TunnelError ClientConfig
  validate_client c = do
    refuse_if (is_empty (normalize_server_address c.server)) no_server
    check_server (split_host_port (normalize_server_address c.server))
    tunnels ← validate_tunnels [] c.tunnels
    ok (record { server = normalize_server_address c.server; tunnels = tunnels })

-- A tunnel that the client can start.
pub record IsStartable (t : TunnelConfig) : Type 0 where
  pub named : is_empty t.name ≡ false
  pub kind : is_known_type t.type_name ≡ true
  pub port : (ltb_ℤ t.port (pos 1) ≡ false) × (ltb_ℤ (pos 65535) t.port ≡ false)
  pub transport : (is_empty t.transport || is_known_transport t.transport) ≡ true
  pub secrets : (is_empty t.auth || is_empty t.auth_bearer) ≡ true

lowered_nil : (t : Bytes) → is_empty (to_lower t) ≡ is_empty t
unfolding to_lower
lowered_nil [] = refl
lowered_nil (c ∷ t) = refl

tunnel-IsStartable :
    (t t' : TunnelConfig) → validate_tunnel t ≡ ok t' → IsStartable t' × (t'.name ≡ t.name)
unfolding validate_tunnel
tunnel-IsStartable t t' e =
    let same : lowered t ≡ t' = ground arith in
    subst (λ u. IsStartable u × (u.name ≡ t.name)) same
      (
        record {
          named = ground arith;
          kind = ground arith;
          port = (ground arith, ground arith);
          transport = ground (arith, lowered_nil t.transport);
          secrets = ground arith;
        },
        refl,
      )

-- The names are others than those seen, and no two are the same.
abbrev AreFresh : List Bytes → List TunnelConfig → Type 0
AreFresh names [] = Unit
AreFresh names (t ∷ rest) = (any (str_eq t.name) names ≡ false) × AreFresh (t.name ∷ names) rest

tunnels-AreFresh :
    (names : List Bytes) (ts ts' : List TunnelConfig)
    → validate_tunnels names ts ≡ ok ts'
    → All IsStartable ts' × AreFresh names ts' × (length ts' ≡ length ts)
unfolding validate_tunnels
tunnels-AreFresh names [] ts' e =
    let same : [] ≡ ts' = ground arith in
    subst (λ us. All IsStartable us × AreFresh names us × (length us ≡ 0)) same (tt, tt, refl)
tunnels-AreFresh names (t ∷ rest) ts' e =
    let (valid, checked, e1) = >>=-eq-ok (validate_tunnel t) _ e in
    let (_, fresh, e2) = >>=-eq-ok (refuse_if (any (str_eq t.name) names) duplicate_name) _ e1 in
    let (later, run, e3) = >>=-eq-ok (validate_tunnels (t.name ∷ names) rest) _ e2 in
    let (startable, name) = tunnel-IsStartable t valid checked in
    let (all_of, others, count) = tunnels-AreFresh (t.name ∷ names) rest later run in
    let same : valid ∷ later ≡ ts' = ground arith in
    subst (λ us. All IsStartable us × AreFresh names us × (length us ≡ suc (length rest))) same
      ((startable, all_of), (rw name (ground arith), rw name others), ap suc count)

others_differ :
    (names : List Bytes) (ts : List TunnelConfig)
    → AreFresh names ts
    → All (λ t. any (str_eq t.name) names ≡ false) ts
others_differ names [] f = tt
others_differ names (t ∷ rest) f =
    (f.0, All-weaken _ _ rest (λ u h. ground arith) (others_differ (t.name ∷ names) rest f.1))

found_first :
    (names : List Bytes) (ts : List TunnelConfig)
    → AreFresh names ts
    → All (λ t. find? (is_tunnel t.name) ts ≡ some t) ts
found_first names [] f = tt
found_first names (t ∷ rest) f = (
  rw (str_eq_refl t.name) refl,
  All-weaken _ _ rest (λ u h. ground (arith, str_eq_iff t.name u.name, str_eq_iff u.name t.name))
      (All-both _ _ rest (others_differ (t.name ∷ names) rest f.1)
        (found_first (t.name ∷ names) rest f.1)),
)

-- In a configuration that the client accepts, each tunnel has a name, a known type and transport, a
-- port from 1 to 65535 and at most one secret; `GetTunnel` finds each of them by its name, so that none
-- hides another; and none of those in the file is left out.
pub get_tunnel-validate_client :
    (split_host_port : Bytes → Option (Bytes × Bytes)) (join_host_port : Bytes → Bytes → Bytes)
    (is_ip : Bytes → Bool) (c c' : ClientConfig)
    → validate_client split_host_port join_host_port is_ip c ≡ ok c'
    → All IsStartable c'.tunnels
      × All (λ t. get_tunnel t.name c' ≡ some t) c'.tunnels
      × (length c'.tunnels ≡ length c.tunnels)
unfolding validate_client get_tunnel
get_tunnel-validate_client split_host_port join_host_port is_ip c c' e =
    let address = normalize_server_address split_host_port join_host_port is_ip c.server in
    let (_, _, e1) = >>=-eq-ok (refuse_if (is_empty address) no_server) _ e in
    let (_, _, e2) =
      >>=-eq-ok (check_server split_host_port join_host_port is_ip (split_host_port address)) _
        e1 in
    let (tunnels, checked, e3) = >>=-eq-ok (validate_tunnels [] c.tunnels) _ e2 in
    let (startable, fresh, count) = tunnels-AreFresh [] c.tunnels tunnels checked in
    let same : tunnels ≡ c'.tunnels = ground arith in
    subst
      (λ us.
        All IsStartable us
        × All (λ t. find? (is_tunnel t.name) us ≡ some t) us
        × (length us ≡ length c.tunnels))
      same (startable, found_first [] tunnels fresh, count)
