-- ===== src/Tcp/Lifecycle/Restored.antt =====
-- A connection that registers a tunnel and then ends leaves the server as it was.
use drip_ex.Base.{
  if◌then◌else◌, Bool-cases, Bytes, str_eq, str_eq_iff, is_empty, ok, ◌≡◌, refl, sym, subst, ◌∙◌,
  inl, inr, true, false, Option, none, some, List, [], ◌∷◌,
}
use drip_ex.Names.{validate_subdomain}
use drip_ex.Tunnel.Shards.{Connection}
use drip_ex.Tunnel.Manager.{get}
use drip_ex.Tunnel.Manager.Books.{IsValid}
use drip_ex.Tunnel.Manager.Registry.{IsRandom}
use drip_ex.Tunnel.Manager.Validity.{unregister-IsValid}
use drip_ex.Tunnel.Manager.Stale.{get-unregister}
use drip_ex.Store.Sessions.{SessionRow}
use drip_ex.Tcp.Registration.{
  World, RegistrationRequest, RegistrationHandler, RegistrationResult, register,
}
use drip_ex.Tcp.Registration.Outcomes.{SameTables, AreDraws, give_back-SameTables}
use drip_ex.Tcp.Registration.Valid.{IsInOrder, register-IsInOrder}
use drip_ex.Tcp.Registration.Atomic.{Served, IsServed, register-Served}
use drip_ex.Tcp.Lifecycle.{
  Lifecycle, new_lifecycle, Shared, set_registration, release_all, close_connection,
}

valid_nonempty : (name : Bytes) → validate_subdomain name ≡ true → is_empty name ≡ false
unfolding validate_subdomain
valid_nonempty [] h = cc
valid_nonempty (c ∷ s) h = refl

-- A name that nobody had and that is given up again.
restored :
    (name j : Bytes) (after before : Bytes → Option Connection) (tunnel : Connection)
    → before name ≡ none
    → after j ≡ (if str_eq name j then some tunnel else before j)
    → (if str_eq name j then none else after j) ≡ before j
restored name j after before tunnel fresh placed = elim (Bool-cases (str_eq name j)) [
  | inl same ↦ rw same (sym (subst (λ k. before k ≡ none) ((str_eq_iff name j).0 same) fresh))
  | inr other ↦ rw other (placed ∙ rw other refl)
]

module _ {G : Type 0} (remove_group : Bytes → G → G) (w : World) (rh rh' : RegistrationHandler)
    (req : RegistrationRequest) (out : RegistrationResult) (sessions : Option (List SessionRow))
    (groups : Option G) where
  abbrev pub served : Shared G
  served = record {
    manager = rh'.manager;
    port_alloc = rh'.port_alloc;
    sessions = sessions;
    groups = groups;
  }

  abbrev pub ended : Lifecycle × Shared G
  ended = close_connection remove_group (set_registration out new_lifecycle, served)

  module _ (order : IsInOrder w rh req rh) (draws : AreDraws rh.port_alloc w.draw)
      (random : IsRandom w.names) where
    -- From a server in order, a connection whose registration succeeds and that then ends leaves
    -- every name finding what it found before the registration, all ports as they were, and the
    -- manager in order; ending it a second time changes nothing more. The random numbers are below
    -- 36 for names, and below the size of the range for ports.
    pub close-register :
        (j : Bytes)
        → register w rh req ≡ (rh', ok out)
        → (get ended.1.manager j ≡ get rh.manager j)
          × SameTables rh.port_alloc ended.1.port_alloc
          × IsValid ended.1.manager
          × (close_connection remove_group ended ≡ ended)
    unfolding close_connection set_registration release_all
    close-register j e =
        let s : IsServed w rh req rh' out =
          subst (Served w rh req) e
            (register-Served w rh req order.ports draws random order.valid) in
        let kept : IsInOrder w rh req rh' =
          subst (λ x. IsInOrder w rh req x.0) e (register-IsInOrder w rh req order draws random) in
        let named : is_empty out.subdomain ≡ false = valid_nonempty out.subdomain s.valid in
        let (valid, books) = unregister-IsValid out.subdomain rh'.manager kept.valid kept.ips in
        rw named (
          get-unregister out.subdomain j rh'.manager kept.valid
              ∙ restored out.subdomain j (get rh'.manager) (get rh.manager) _ s.fresh (s.placed j),
          give_back-SameTables rh.port_alloc rh'.port_alloc out.port order.ports s.port,
          valid,
          refl,
        )
