-- ===== src/Tcp/Registration/Closed.antt =====
-- What a registration that succeeds owes to the resolver.
use drip_ex.Base.{
  Bytes, is_empty, is_empty_ne, Result, ok, err, ℕ, ◌≡◌, refl, sym, ap, subst, ◌≢◌, true, false,
  Option, none, some, [], arith,
}
use drip_ex.Tunnel.Shards.{Connection}
use drip_ex.Tunnel.Manager.{Manager, Error, get}
use drip_ex.Store.Reservations.{ReservationStore}
use drip_ex.Resolver.{Resolution, ResolveError, is_reserved}
use drip_ex.Resolver.Fleet.{HasIds, resolve-is_reserved}
use drip_ex.Tcp.Ports.{PortAllocator}
use drip_ex.Tcp.Registration.{
  World, RegistrationRequest, RegistrationHandler, RegistrationResult, RegistrationError, is_active,
  resolver_request, resolve_with_resolver, resolve_request, take_port, registration_result, finish,
  registered, with_port, with_resolution, register, is_tcp,
}

-- The answer carries the reservation and the bandwidth of the resolution.
abbrev pub Carries : RegistrationResult → Resolution → Type 0
Carries out res = (out.reservation_id ≡ res.reservation_id) × (out.bandwidth ≡ res.bandwidth)

carries :
    (rh : RegistrationHandler) (req : RegistrationRequest) (res : Resolution) (name : Bytes)
    (port : ℕ) (out : RegistrationResult)
    → registration_result rh req res name port ≡ out
    → Carries out res
unfolding registration_result
carries rh req res name port out e =
    (ap (λ t. t.reservation_id) (sym e), ap (λ t. t.bandwidth) (sym e))

module _ (w : World) (req : RegistrationRequest) (rh' : RegistrationHandler)
    (out : RegistrationResult) where
  finish_ok :
      (rh : RegistrationHandler) (res : Resolution) (name : Bytes) (port : ℕ)
      (c : Option Connection)
      → finish rh req res name port c ≡ (rh', ok out)
      → Carries out res
  unfolding finish
  finish_ok rh res name port none e = cc
  finish_ok rh res name port (some c) e =
      carries rh req res name port out (ok-injective (ap (λ t. t.1) e))
    where
      ok-injective :
          {x y : RegistrationResult}
          → ◌≡◌ {A = Result RegistrationError RegistrationResult} (ok x) (ok y)
          → x ≡ y
      ok-injective p = cc

  registered_ok :
      (rh : RegistrationHandler) (res : Resolution) (port : ℕ) (r : Manager × Result Error Bytes)
      → registered rh req res port r ≡ (rh', ok out)
      → Carries out res
  unfolding registered
  registered_ok rh res port (m, err x) e = cc
  registered_ok rh res port (m, ok name) e =
      finish_ok (record rh { manager = m }) res name port (get m name) e

  with_port_ok :
      (rh : RegistrationHandler) (res : Resolution)
      (r : Option PortAllocator × Result RegistrationError (ℕ × Bytes))
      → with_port w rh req res r ≡ (rh', ok out)
      → Carries out res
  unfolding with_port
  with_port_ok rh res (ports, err x) e = cc
  with_port_ok rh res (ports, ok (port, name)) e =
      registered_ok (record rh { port_alloc = ports }) res port _ e

  with_resolution_ok :
      (rh : RegistrationHandler) (r : Result ResolveError Resolution)
      → with_resolution w rh req r ≡ (rh', ok out)
      → (res : Resolution) × (r ≡ ok res) × Carries out res
  unfolding with_resolution
  with_resolution_ok rh (err x) e = cc
  with_resolution_ok rh (ok res) e =
      (res, refl, with_port_ok rh res (take_port w (is_tcp req) res rh.port_alloc) e)

  -- A registration that succeeds carries the reservation and the bandwidth of what the resolver
  -- answered.
  pub register-Carries :
      (rh : RegistrationHandler)
      → register w rh req ≡ (rh', ok out)
      → (res : Resolution) × (resolve_request rh req ≡ ok res) × Carries out res
  unfolding register
  register-Carries rh e = with_resolution_ok rh (resolve_request rh req) e

  -- On a server that requires reservations, a registration that succeeds is bound to one, whatever
  -- the client asks for, if each row of the store has an id.
  pub register_bound :
      (rh : RegistrationHandler) (s : ReservationStore)
      → HasIds s
      → rh.resolver ≡ some (record { store = some s; require_reservation = true })
      → register w rh req ≡ (rh', ok out)
      → out.reservation_id ≢ []
  unfolding resolve_request
  register_bound rh s ids closed e =
      let (res, answer, kept) = register-Carries rh e in
      let bound : is_reserved res ≡ true =
        resolve-is_reserved s (is_active rh.manager) ids (resolver_request req) res
          (subst (λ o. resolve_with_resolver o rh.manager req ≡ ok res) closed answer) in
      let named : is_empty res.reservation_id ≡ false = ground (arith, bound) in
      is_empty_ne out.reservation_id (rw kept.0 named)
