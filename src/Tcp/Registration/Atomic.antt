-- ===== src/Tcp/Registration/Atomic.antt =====
-- A registration takes what it needs, or nothing.
use drip_ex.Base.{
  true, if◌then◌else◌, Bytes, str_eq, str_eq_refl, Result, ok, err, ℕ, ◌≡◌, refl, sym, ap, subst,
  ◌∙◌, Option, none, some, arith,
}
use drip_ex.Names.{validate_subdomain}
use drip_ex.Tunnel.Shards.{Connection, new_connection, find}
use drip_ex.Tunnel.Shards.Counting.{IsSharded, find-put, put-IsSharded}
use drip_ex.Tunnel.Manager.{Manager, Error, owned_connection, get}
use drip_ex.Tunnel.Manager.Books.{IsValid, SameBooks}
use drip_ex.Tunnel.Manager.Registry.{IsRandom, Registration, register-Registration}
use drip_ex.Resolver.{Resolution, ResolveError}
use drip_ex.Tcp.Ports.{PortAllocator}
use drip_ex.Tcp.Registration.{
  World, RegistrationRequest, RegistrationHandler, RegistrationResult, RegistrationError, is_tcp,
  resolve_request, configure, registration_result, finish, registered, with_port, with_resolution,
  register,
}
use drip_ex.Tcp.Registration.Outcomes.{
  SameTables, AreInOrder, AreDraws, HasPort, PortTaken, take_port-PortTaken, SameTables-refl,
  give_back-SameTables,
}

module _ (w : World) (rh : RegistrationHandler) (req : RegistrationRequest) where
  abbrev pub tunnel_of : Bytes → Connection
  tunnel_of name = configure req (owned_connection w.now req.remote_ip req.owner name)

  -- The tunnel stands under a valid name that was free, configured as asked, every other name finds what
  -- it found before, and the port that the answer names is taken.
  pub record IsServed (rh' : RegistrationHandler) (out : RegistrationResult) : Type 0 where
    pub fresh : get rh.manager out.subdomain ≡ none
    pub valid : validate_subdomain out.subdomain ≡ true
    pub placed :
        (j : Bytes)
        → get rh'.manager j
          ≡ (if str_eq out.subdomain j then some (tunnel_of out.subdomain) else get rh.manager j)
    pub port : HasPort rh.port_alloc rh'.port_alloc out.port

  -- All the books of the manager but the rate limiter's, and all ports, are as they were.
  pub record IsUntouched (rh' : RegistrationHandler) : Type 0 where
    pub books : SameBooks rh.manager rh'.manager
    pub ports : SameTables rh.port_alloc rh'.port_alloc

  abbrev pub Served : RegistrationHandler × Result RegistrationError RegistrationResult → Type 0
  Served (rh', ok out) = IsServed rh' out
  Served (rh', err e) = IsUntouched rh'

  module _ (order : AreInOrder rh.port_alloc) (draws : AreDraws rh.port_alloc w.draw)
      (random : IsRandom w.names) (valid : IsValid rh.manager) where
    registered-Served :
        (res : Resolution) (port : ℕ) (ports : Option PortAllocator)
        (out : Manager × Result Error Bytes)
        → HasPort rh.port_alloc ports port
        → Registration w.now req.remote_ip req.owner rh.manager out
        → Served (registered (record rh { port_alloc = ports }) req res port out)
    unfolding registered finish registration_result get new_connection
    registered-Served res port ports (m, err e) h same = record {
      books = same;
      ports = give_back-SameTables rh.port_alloc ports port order h;
    }
    registered-Served res port ports (m, ok name) h r =
        let c = owned_connection w.now req.remote_ip req.owner name in
        let sharded : IsSharded m.shards =
          rw r.claimed.placed (put-IsSharded rh.manager.shards name c refl valid.sharded) in
        let before = λ (j : Bytes). find-put rh.manager.shards name j c valid.sharded in
        let stands : find m.shards name ≡ some c = rw r.claimed.placed (
          before name
          ∙ ap (λ b. if b then some c else find rh.manager.shards name) (str_eq_refl name)) in
        let placed_at : (j : Bytes)
            → find m.shards j ≡ (if str_eq name j then some c else find rh.manager.shards j) =
          λ j. rw r.claimed.placed (before j) in
        subst
          (λ o. Served (finish (record rh { manager = m; port_alloc = ports }) req res name port o))
          (sym stands)
          (record {
            fresh = r.claimed.fresh;
            valid = r.claimed.valid;
            placed = λ j.
                ground (arith, find-put m.shards name j (configure req c) sharded, placed_at j);
            port = h;
          })

    same_books : SameBooks rh.manager rh.manager
    same_books = record {
      shards = refl;
      count = refl;
      max_tunnels = refl;
      max_tunnels_per_ip = refl;
      accounts = λ a. refl;
      ips = λ a. refl;
    }

    with_port-Served :
        (res : Resolution) (out : Option PortAllocator × Result RegistrationError (ℕ × Bytes))
        → PortTaken rh.port_alloc out
        → Served (with_port w rh req res out)
    unfolding with_port
    with_port-Served res (ports, err e) same = record {
      books = same_books;
      ports = subst (SameTables rh.port_alloc) (sym same) (SameTables-refl rh.port_alloc);
    }
    with_port-Served res (ports, ok (port, name)) h = registered-Served res port ports _ h (
        register-Registration w.now req.remote_ip req.owner w.names name rh.manager random
          valid.sharded)

    with_resolution-Served :
        (out : Result ResolveError Resolution) → Served (with_resolution w rh req out)
    unfolding with_resolution
    with_resolution-Served (err e) = record {
      books = same_books;
      ports = SameTables-refl rh.port_alloc;
    }
    with_resolution-Served (ok res) =
        with_port-Served res _ (take_port-PortTaken w (is_tcp req) res rh.port_alloc order draws)

    -- From a manager and ports in order, a registration that succeeds puts the tunnel, configured
    -- as asked, under a valid name that was free, leaves what every other name finds, and takes the
    -- port of its answer, if that is not 0; one that fails at any step leaves all names, the
    -- global, account and address counters, and all ports as they were. The random numbers are
    -- below 36 for names, and below the size of the range for ports.
    pub register-Served : Served (register w rh req)
    unfolding register
    register-Served = with_resolution-Served (resolve_request rh req)
