-- ===== src/Resolver/Ownership.antt =====
-- Who is granted a name or a port that is asked for.
use drip_ex.Base.{
  ltb, Bytes, str_eq_iff, is_empty_ne, ne_is_empty, Result, >>=-eq-ok, ok, err, ◌<◌, ◌≡◌, refl, sym,
  ap, subst, ◌∙◌, ◌≢◌, ◌↔◌, ◌⊎◌, inl, inr, Bool, true, false, Option, none, some, [], arith,
}
use drip_ex.Store.Reservations.{Reservation, StoreError, ReservationStore, not_found, trimmed}
use drip_ex.Store.Reservations.Queries.{IsFaithful}
use drip_ex.Resolver.{
  Request, Resolution, ResolveError, reserved_by_another, port_reserved_by_another, ephemeral,
  resolution_for, is_foreign, check_ownership, grant, resolve_http, resolve_tcp,
}

-- The requester may bind the reservation: it is its account's, switched on, and pinned to no other
-- client.
pub record IsEntitled (r : Reservation) (req : Request) : Type 0 where
  pub account : r.account_id ≡ req.account_id
  pub identified : req.account_id ≢ []
  pub enabled : r.enabled ≡ true
  pub unpinned : (r.client_id ≡ none) ⊎ (r.client_id ≡ some req.client_id)

unpinned_of :
    (o : Option Bytes) (client : Bytes)
    → is_foreign o client ≡ false
    → (o ≡ none) ⊎ (o ≡ some client)
unpinned_of none client h = inl refl
unpinned_of (some c) client h = inr (ap some ((str_eq_iff c client).0 (ground arith)))

pinned_of :
    (o : Option Bytes) (client : Bytes)
    → (o ≡ none) ⊎ (o ≡ some client)
    → is_foreign o client ≡ false
pinned_of none client h = refl
pinned_of (some c) client h = ground (arith, str_eq_iff c client)

-- A request passes the check of ownership if and only if it is entitled to the reservation.
pub check_ownership_iff :
    (r : Reservation) (req : Request) (mismatch : ResolveError)
    → (check_ownership r req mismatch ≡ ok tt) ↔ IsEntitled r req
unfolding check_ownership
check_ownership_iff r req mismatch = (
  λ e. record {
    account = ground (arith, str_eq_iff r.account_id req.account_id);
    identified = is_empty_ne req.account_id (ground arith);
    enabled = ground arith;
    unpinned = unpinned_of r.client_id req.client_id (ground arith);
  },
  λ w.
      let mine = (str_eq_iff r.account_id req.account_id).1 w.account in
      rw
        (
          mine,
          ne_is_empty req.account_id w.identified,
          w.enabled,
          pinned_of r.client_id req.client_id w.unpinned,
        )
        refl,
)

ok-injective : {r q : Reservation} → ◌≡◌ {A = Result StoreError Reservation} (ok r) (ok q) → r ≡ q
ok-injective e = cc

module _ (s : ReservationStore) (required : Bool) (is_active : Bytes → Bool) (req : Request) where
  -- A grant of a name that was asked for: nobody's name, or a reservation that is the requester's.
  abbrev pub IsGranted : Result StoreError Reservation → Resolution → Resolution → Type 0
  IsGranted found free res =
      ((found ≡ err not_found) × (res ≡ free) × (required ≡ false))
      ⊎ ((r : Reservation) × (found ≡ ok r) × IsEntitled r req × (res ≡ resolution_for r))

  grant_owned :
      (mismatch : ResolveError) (free res : Resolution) (r : Reservation)
      → IsGranted (ok r) free res
      → grant s required is_active req mismatch free (ok r) ≡ ok res
  grant_owned mismatch free res r (inl (e, _, _)) = cc
  grant_owned mismatch free res r (inr (q, e, w, same)) =
      let mine : IsEntitled r req = subst (λ t. IsEntitled t req) (sym (ok-injective e)) w in
      let passed = (check_ownership_iff r req mismatch).1 mine in
      rw passed (ap (λ t. ok (resolution_for t)) (ok-injective e) ∙ ap ok (sym same))

  grant_free :
      (mismatch : ResolveError) (free res : Resolution)
      → IsGranted (err not_found) free res
      → grant s required is_active req mismatch free (err not_found) ≡ ok res
  grant_free mismatch free res (inl (_, same, open_server)) = rw open_server (ap ok (sym same))
  grant_free mismatch free res (inr (q, e, _, _)) = cc

  pub grant_iff :
      (mismatch : ResolveError) (free res : Resolution) (found : Result StoreError Reservation)
      → (grant s required is_active req mismatch free found ≡ ok res) ↔ IsGranted found free res
  grant_iff mismatch free res (ok r) = (
    λ e.
        let (_, passed, same) = >>=-eq-ok (check_ownership r req mismatch) _ e in
        inr (r, refl, (check_ownership_iff r req mismatch).0 passed, ground arith),
    λ g. grant_owned mismatch free res r g,
  )
  grant_iff mismatch free res (err not_found) =
      (λ e. inl (refl, ground arith, ground arith), λ g. grant_free mismatch free res g)
  grant_iff mismatch free res (err e) = (λ p. cc, λ g. ground arith)

  -- A subdomain that is asked for, and is more than spaces, is granted in two cases only, and
  -- then always: no reservation holds it and the server takes unreserved tunnels, which gives the
  -- name trimmed and in lower case with no reservation; or the requester is entitled to the
  -- reservation, and is bound to it.
  pub resolve_http_iff :
      (res : Resolution)
      → trimmed req.requested_subdomain ≢ []
      → (resolve_http s required is_active req ≡ ok res)
        ↔ IsGranted
            (s.by_subdomain (trimmed req.requested_subdomain))
            (ephemeral (trimmed req.requested_subdomain) 0)
            res
  unfolding resolve_http
  resolve_http_iff res ne =
      rw (ne_is_empty _ ne) (grant_iff reserved_by_another (ephemeral _ 0) res _)

  -- A TCP port that is asked for is granted in two cases only, and then always: no reservation
  -- holds it and the server takes unreserved tunnels, which gives the port with no reservation; or
  -- the requester is entitled to the reservation, and is bound to it.
  pub resolve_tcp_iff :
      (res : Resolution)
      → 0 < req.requested_tcp_port
      → (resolve_tcp s required is_active req ≡ ok res)
        ↔ IsGranted
            (s.by_tcp_port req.requested_tcp_port)
            (ephemeral req.requested_subdomain req.requested_tcp_port)
            res
  unfolding resolve_tcp
  resolve_tcp_iff res held =
      let asked : ltb 0 req.requested_tcp_port ≡ true = ground arith in
      rw asked (grant_iff port_reserved_by_another (ephemeral _ _) res _)

module _ (s : ReservationStore) (faithful : IsFaithful s) (required : Bool)
    (is_active : Bytes → Bool) (req : Request) (res : Resolution) where
  -- A TCP port that is asked for and granted is the one that was asked for, reserved or not, if the
  -- store answers by rows of the port.
  pub resolve_tcp_port :
      0 < req.requested_tcp_port
      → resolve_tcp s required is_active req ≡ ok res
      → res.tcp_port ≡ req.requested_tcp_port
  unfolding resolution_for
  resolve_tcp_port asked e = elim ((resolve_tcp_iff s required is_active req res asked).0 e) [
    | inl (_, same, _) ↦ ap (λ t. t.tcp_port) same
    | inr (r, held, _, same) ↦
        ap (λ t. t.tcp_port) same ∙ faithful.on_port req.requested_tcp_port r held
  ]
