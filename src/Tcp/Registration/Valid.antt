-- ===== src/Tcp/Registration/Valid.antt =====
-- A registration, whatever comes of it, keeps the manager and the ports in order.
use drip_ex.Base.{
  ltb, if◌then◌else◌, Bool-cases, Bytes, str_eq_refl, Result, ok, err, ℕ, ◌≡◌, refl, sym, ap, subst,
  ◌∙◌, inl, inr, Bool, Option, none, some, arith,
}
use drip_ex.Tunnel.Shards.{Connection, new_connection, find, total, put_tunnel}
use drip_ex.Tunnel.Shards.Counting.{find-put, put-IsSharded, total-replace}
use drip_ex.Tunnel.Manager.{Manager, Error, owned_connection, get}
use drip_ex.Tunnel.Manager.Books.{any_tunnel, of_account, unowned_from, IsValid, HasIpBooks}
use drip_ex.Tunnel.Manager.Registry.{IsRandom, Registration, register-Registration}
use drip_ex.Tunnel.Manager.Validity.{register_owned-IsValid}
use drip_ex.Resolver.{Resolution, ResolveError}
use drip_ex.Tcp.Ports.{PortAllocator}
use drip_ex.Tcp.Ports.Held.{IsTaken-IsPortTable, release-IsPortTable}
use drip_ex.Tcp.Registration.{
  World, RegistrationRequest, RegistrationHandler, RegistrationError, is_tcp, resolve_request,
  give_back, configure, finish, registered, with_port, with_resolution, register,
}
use drip_ex.Tcp.Registration.Outcomes.{
  AreInOrder, AreDraws, HasPort, PortTaken, take_port-PortTaken,
}

HasPort-AreInOrder :
    (ports ports' : Option PortAllocator) (port : ℕ)
    → HasPort ports ports' port
    → AreInOrder ports
    → AreInOrder ports'
HasPort-AreInOrder none ports' port (e, z) v = rw e tt
HasPort-AreInOrder (some p) ports' port (inl (e, z)) v = rw e v
HasPort-AreInOrder (some p) ports' port (inr (p', e, w, held)) v =
    rw e (IsTaken-IsPortTable p p' port w v)

give_back-AreInOrder :
    (port : ℕ) (ports : Option PortAllocator) → AreInOrder ports → AreInOrder (give_back port ports)
give_back-AreInOrder port none v = tt
give_back-AreInOrder port (some p) v = elim (Bool-cases (ltb 0 port)) [
  | inl held ↦ rw held (release-IsPortTable port p v)
  | inr free ↦ rw free v
]

-- A tunnel that stands in the table is configured in its place.
module _ (req : RegistrationRequest) (m : Manager) (name : Bytes) (c : Connection)
    (same : c.subdomain ≡ name) (stands : find m.shards name ≡ some c) where
  configured : Manager
  configured = record m { shards = put_tunnel m.shards name (configure req c) }

  total-configured :
      (p : Connection → Bool)
      → p (configure req c) ≡ p c
      → IsValid m
      → total p configured.shards ≡ total p m.shards
  unfolding configured
  total-configured p e v = total-replace p m.shards name c (configure req c) v.sharded stands e

  configured-IsValid : IsValid m → IsValid configured
  unfolding configured configure
  configured-IsValid v = record {
    sharded = put-IsSharded m.shards name (configure req c) same v.sharded;
    counted = v.counted ∙ sym (total-configured any_tunnel refl v);
    capped = v.capped;
    accounts = λ a ne. v.accounts a ne ∙ sym (total-configured (of_account a) refl v);
  }

  configured-HasIpBooks : IsValid m → HasIpBooks m → HasIpBooks configured
  unfolding configured configure
  configured-HasIpBooks v b = record {
    capped = b.capped;
    backed = λ ip ne. omega (arith, b.backed ip ne, total-configured (unowned_from ip) refl v);
  }

module _ (w : World) (rh : RegistrationHandler) (req : RegistrationRequest) where
  -- The invariants of the manager's table and counters, and of the ports.
  pub record IsInOrder (rh' : RegistrationHandler) : Type 0 where
    pub valid : IsValid rh'.manager
    pub ips : HasIpBooks rh'.manager
    pub ports : AreInOrder rh'.port_alloc

  module _ (order : IsInOrder rh) (draws : AreDraws rh.port_alloc w.draw)
      (random : IsRandom w.names) where
    registered-IsInOrder :
        (res : Resolution) (port : ℕ) (ports : Option PortAllocator)
        (out : Manager × Result Error Bytes)
        → HasPort rh.port_alloc ports port
        → Registration w.now req.remote_ip req.owner rh.manager out
        → IsValid out.0
        → HasIpBooks out.0
        → IsInOrder (registered (record rh { port_alloc = ports }) req res port out).0
    unfolding registered finish get new_connection configured
    registered-IsInOrder res port ports (m, err e) h r v b = record {
      valid = v;
      ips = b;
      ports =
          give_back-AreInOrder port ports
            (HasPort-AreInOrder rh.port_alloc ports port h order.ports);
    }
    registered-IsInOrder res port ports (m, ok name) h r v b =
        let c = owned_connection w.now req.remote_ip req.owner name in
        let stands : find m.shards name ≡ some c = rw r.claimed.placed (
          find-put rh.manager.shards name name c order.valid.sharded
          ∙ ap (λ t. if t then some c else find rh.manager.shards name) (str_eq_refl name)) in
        subst
          (λ o.
            IsInOrder
              (finish (record rh { manager = m; port_alloc = ports }) req res name port o).0)
          (sym stands)
          (record {
            valid = configured-IsValid req m name c refl stands v;
            ips = configured-HasIpBooks req m name c refl stands v b;
            ports = HasPort-AreInOrder rh.port_alloc ports port h order.ports;
          })

    with_port-IsInOrder :
        (res : Resolution) (out : Option PortAllocator × Result RegistrationError (ℕ × Bytes))
        → PortTaken rh.port_alloc out
        → IsInOrder (with_port w rh req res out).0
    unfolding with_port
    with_port-IsInOrder res (ports, err e) same = record {
      valid = order.valid;
      ips = order.ips;
      ports = subst AreInOrder (sym same) order.ports;
    }
    with_port-IsInOrder res (ports, ok (port, name)) h =
        let (v, b) =
          register_owned-IsValid w.now w.names name req.remote_ip req.owner rh.manager random
            order.valid order.ips in
        registered-IsInOrder res port ports _ h
          (register-Registration w.now req.remote_ip req.owner w.names name rh.manager random
            order.valid.sharded)
          v b

    with_resolution-IsInOrder :
        (out : Result ResolveError Resolution) → IsInOrder (with_resolution w rh req out).0
    unfolding with_resolution
    with_resolution-IsInOrder (err e) = order
    with_resolution-IsInOrder (ok res) =
        with_port-IsInOrder res _
          (take_port-PortTaken w (is_tcp req) res rh.port_alloc order.ports draws)

    -- A whole registration, whether it succeeds or fails at any step, keeps the manager's table
    -- well formed, the global counter equal to the number of tunnels and within its cap, each
    -- account's counter equal to the number of its tunnels, each address's counter within its cap
    -- and its tunnels, and every port that is handed out within the range of the allocator. The
    -- random numbers are below 36 for names, and below the size of the range for ports.
    pub register-IsInOrder : IsInOrder (register w rh req).0
    unfolding register
    register-IsInOrder = with_resolution-IsInOrder (resolve_request rh req)
