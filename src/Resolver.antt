-- ===== src/Resolver.antt =====
-- internal/server/reservations/resolver.go: which name or port a registering client may bind. The
-- store is the interface `ReservationStore`; an error is kept without the target in its text.
pub mod Ownership
pub mod Fleet
use drip_ex.Base.{
  ltb, leb, ◌==◌, if◌then◌else◌, ==_iff, Bool-cases, and-eq-true, Option-cases, is_some, or_default,
  length, get_or, set, take, drop, replicate, all, any, find?, select, All, length-append,
  length-set, get_or-set_self, get_or-set_ne, take-length_append, drop-length_append, Bytes, codes,
  str_eq, str_eq_iff, str_eq_refl, is_empty, is_upper, is_digit, is_space, lower_byte, upper_byte,
  to_lower, to_upper, trim_left, trim_space, strip_prefix, contains_byte, equal_fold, Map, lookup,
  insert, delete, lookup-insert, lookup-delete, Distinct, insert-Distinct, delete-Distinct,
  delete_absent, count, count-insert, count-delete, tally, increment, decrement, tally-increment,
  tally-decrement, decrement-increment, Result, ◌>>=◌, ◌>>◌, refuse_if, >>=-eq-ok, ℤ, pos_part,
  neg_part, ◌≤ℤ◌, ltb_ℤ, ok, err, pos, negsuc, ℕ, zero, suc, ◌+◌, ◌-◌, ◌*◌, ◌/◌, ◌%◌, ◌^◌, ◌≤◌, ◌<◌,
  min, bit_xor, String, ◌≡◌, refl, sym, ap, subst, ◌∙◌, ◌≢◌, ◌↔◌, ◌⊎◌, inl, inr, Bool, true, false,
  not, ◌&&◌, ◌||◌, Option, none, some, List, [], ◌∷◌, ◌++◌, map, arith, ℕ_discrete,
}
use drip_ex.Names.{http, tcp, tcp_name, normalize_tunnel_type}
use drip_ex.Store.Reservations.{Reservation, StoreError, ReservationStore, not_found, trimmed}

pub record Request : Type 0 where
  pub account_id : Bytes
  pub client_id : Bytes
  pub tunnel_type : Bytes
  pub requested_subdomain : Bytes
  -- 0 if no port is asked for.
  pub requested_tcp_port : ℕ

pub record Resolution : Type 0 where
  -- Empty to have a name made up.
  pub subdomain : Bytes
  -- 0 for any free port.
  pub tcp_port : ℕ
  pub reservation_id : Bytes
  pub bandwidth : Bytes

abbrev pub is_reserved : Resolution → Bool
is_reserved r = not (is_empty r.reservation_id)

pub data ResolveError : Type 0 where
  reserved_by_another port_reserved_by_another reservation_disabled : ResolveError
  reservation_required reservation_in_use not_bound_to_client : ResolveError
  store_failed : StoreError → ResolveError

pub record Resolver : Type 0 where
  -- `none` is a nil store.
  pub store : Option ReservationStore
  pub require_reservation : Bool

-- A tunnel that is bound to no reservation.
abbrev pub ephemeral : Bytes → ℕ → Resolution
ephemeral subdomain port = record {
  subdomain = subdomain;
  tcp_port = port;
  reservation_id = [];
  bandwidth = [];
}

-- The manager's name for a reservation while it is live.
unfoldable pub reservation_subdomain : Reservation → Bytes
reservation_subdomain r = if is_empty r.subdomain then tcp_name r.tcp_port else r.subdomain

unfoldable pub resolution_for : Reservation → Resolution
resolution_for r = record {
  subdomain = reservation_subdomain r;
  tcp_port = r.tcp_port;
  reservation_id = r.id;
  bandwidth = r.bandwidth;
}

-- The reservation is pinned to a client other than the requester.
abbrev pub is_foreign : Option Bytes → Bytes → Bool
is_foreign none client = false
is_foreign (some c) client = not (str_eq c client)

unfoldable pub check_ownership :
    Reservation → Request → ResolveError → Result ResolveError (Unit {0})
check_ownership r req mismatch = do
  refuse_if (not (str_eq r.account_id req.account_id) || is_empty req.account_id) mismatch
  refuse_if (not r.enabled) reservation_disabled
  refuse_if (is_foreign r.client_id req.client_id) not_bound_to_client

-- The first reservation that no live tunnel holds.
unfoldable pub first_free :
    (Bytes → Bool) → List Reservation → Result ResolveError (Option Resolution)
first_free is_active [] = err reservation_in_use
first_free is_active (r ∷ rs) =
    let rest = first_free is_active rs in
    if is_active (reservation_subdomain r) then rest else ok (some (resolution_for r))

abbrev pub choose :
    (Bytes → Bool) → Result StoreError (List Reservation) → Result ResolveError (Option Resolution)
choose is_active (err e) = err (store_failed e)
choose is_active (ok []) = ok none
choose is_active (ok (r ∷ rs)) = first_free is_active (r ∷ rs)

module _ (s : ReservationStore) (require_reservation : Bool) (is_active : Bytes → Bool) where
  unfoldable pub auto_bind : Request → Bytes → Result ResolveError (Option Resolution)
  auto_bind req family =
      if is_empty req.client_id
      then ok none
      else choose is_active (s.for_client req.client_id family)

  abbrev unless_required : Resolution → Result ResolveError Resolution
  unless_required res = do refuse_if require_reservation reservation_required; ok res

  -- The answer for a name or port that was asked for, from what the store holds about it.
  abbrev grant :
      Request
      → ResolveError
      → Resolution
      → Result StoreError Reservation
      → Result ResolveError Resolution
  grant req mismatch free (ok r) = do check_ownership r req mismatch; ok (resolution_for r)
  grant req mismatch free (err not_found) = unless_required free
  grant req mismatch free (err e) = err (store_failed e)

  abbrev bound_or : Resolution → Option Resolution → Result ResolveError Resolution
  bound_or free none = unless_required free
  bound_or free (some res) = ok res

  unfoldable pub resolve_http : Request → Result ResolveError Resolution
  resolve_http req =
      let requested = trimmed req.requested_subdomain in
      if is_empty requested
      then auto_bind req http >>= bound_or (ephemeral [] 0)
      else grant req reserved_by_another (ephemeral requested 0) (s.by_subdomain requested)

  unfoldable pub resolve_tcp : Request → Result ResolveError Resolution
  resolve_tcp req =
      if ltb 0 req.requested_tcp_port
      then grant req port_reserved_by_another
          (ephemeral req.requested_subdomain req.requested_tcp_port)
          (s.by_tcp_port req.requested_tcp_port)
      else auto_bind req tcp >>= bound_or (ephemeral req.requested_subdomain 0)

  unfoldable pub resolve_stored : Request → Result ResolveError Resolution
  resolve_stored req =
      if str_eq (normalize_tunnel_type req.tunnel_type) tcp
      then resolve_tcp req
      else resolve_http req

abbrev resolve_with :
    Option ReservationStore → Bool → (Bytes → Bool) → Request → Result ResolveError Resolution
resolve_with (some s) required is_active req = resolve_stored s required is_active req
resolve_with none required is_active req = do
  refuse_if required reservation_required
  ok (ephemeral req.requested_subdomain req.requested_tcp_port)

unfoldable pub resolve : Resolver → (Bytes → Bool) → Request → Result ResolveError Resolution
resolve r is_active req = resolve_with r.store r.require_reservation is_active req
