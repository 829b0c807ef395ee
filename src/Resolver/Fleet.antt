-- ===== src/Resolver/Fleet.antt =====
-- Binding a client that names nothing, and servers that take reserved tunnels alone.
use drip_ex.Base.{
  ltb, if◌then◌else◌, Bool-cases, All, Bytes, str_eq, is_empty, ne_is_empty, Result, ◌>>=◌, ok, err,
  ℕ, ◌≡◌, refl, ap, ◌≢◌, inl, inr, Bool, true, false, Option, none, some, List, [], ◌∷◌, ◌++◌,
  arith,
}
use drip_ex.Names.{http, tcp, normalize_tunnel_type}
use drip_ex.Store.Reservations.{Reservation, StoreError, ReservationStore, trimmed}
use drip_ex.Resolver.Ownership.{grant_iff}
use drip_ex.Resolver.{
  Request, Resolution, ResolveError, is_reserved, reservation_in_use, ephemeral,
  reservation_subdomain, resolution_for, first_free, auto_bind, grant, bound_or, resolve_http,
  resolve_tcp, resolve_stored, resolve, choose, reserved_by_another, port_reserved_by_another,
}

-- The reservations in front are all live, and the one bound is not.
pub record IsFirstFree (is_active : Bytes → Bool) (rs : List Reservation) (r : Reservation)
    : Type 0 where
  pub before : List Reservation
  pub after : List Reservation
  pub listed : rs ≡ before ++ r ∷ after
  pub busy : All (λ q. is_active (reservation_subdomain q) ≡ true) before
  pub free : is_active (reservation_subdomain r) ≡ false

-- What the search returns: the first free reservation, or the error where all are live.
abbrev pub FirstFree :
    (Bytes → Bool) → List Reservation → Result ResolveError (Option Resolution) → Type 0
FirstFree is_active rs (ok none) = ⊥
FirstFree is_active rs (ok (some res)) =
    (r : Reservation) × IsFirstFree is_active rs r × (res ≡ resolution_for r)
FirstFree is_active rs (err e) =
    (e ≡ reservation_in_use) × All (λ q. is_active (reservation_subdomain q) ≡ true) rs

FirstFree-cons :
    (is_active : Bytes → Bool) (r : Reservation) (rs : List Reservation)
    (out : Result ResolveError (Option Resolution))
    → is_active (reservation_subdomain r) ≡ true
    → FirstFree is_active rs out
    → FirstFree is_active (r ∷ rs) out
FirstFree-cons is_active r rs (ok none) b f = f
FirstFree-cons is_active r rs (ok (some res)) b (q, w, e) = (
  q,
  record {
    before = r ∷ w.before;
    after = w.after;
    listed = ap (◌∷◌ r) w.listed;
    busy = (b, w.busy);
    free = w.free;
  },
  e,
)
FirstFree-cons is_active r rs (err e) b (p, a) = (p, (b, a))

first_free-FirstFree :
    (is_active : Bytes → Bool) (rs : List Reservation)
    → FirstFree is_active rs (first_free is_active rs)
unfolding first_free
first_free-FirstFree is_active [] = (refl, tt)
first_free-FirstFree is_active (r ∷ rs) = elim (Bool-cases (is_active (reservation_subdomain r))) [
  | inl b ↦ rw b (
      FirstFree-cons is_active r rs (first_free is_active rs) b (first_free-FirstFree is_active rs))
  | inr f ↦ rw f (r, record { before = []; after = rs; listed = refl; busy = tt; free = f }, refl)
]

-- A client with an id that names nothing, and for which the store lists reservations, is bound to
-- the first in the list that no live tunnel holds, and is refused where all of them are live.
pub auto_bind-FirstFree :
    (s : ReservationStore) (required : Bool) (is_active : Bytes → Bool) (req : Request)
    (family : Bytes) (rs : List Reservation)
    → req.client_id ≢ []
    → s.for_client req.client_id family ≡ ok rs
    → rs ≢ []
    → FirstFree is_active rs (auto_bind s required is_active req family)
unfolding auto_bind
auto_bind-FirstFree s required is_active req family [] known listed some_held =
    absurd (some_held refl)
auto_bind-FirstFree s required is_active req family (r ∷ rs) known listed some_held =
    rw (ne_is_empty req.client_id known, listed) (first_free-FirstFree is_active (r ∷ rs))

-- Each answer of the store has an id, as `CreateReservation` gives to each row.
pub record HasIds (s : ReservationStore) : Type 0 where
  pub named : (name : Bytes) (r : Reservation) → s.by_subdomain name ≡ ok r → r.id ≢ []
  pub on_port : (port : ℕ) (r : Reservation) → s.by_tcp_port port ≡ ok r → r.id ≢ []
  pub listed :
      (client kind : Bytes) (rs : List Reservation)
      → s.for_client client kind ≡ ok rs
      → All (λ r. r.id ≢ []) rs

-- A resolution that names a reservation's id.
bound-is_reserved :
    (r : Reservation) (res : Resolution)
    → r.id ≢ []
    → res ≡ resolution_for r
    → is_reserved res ≡ true
unfolding resolution_for
bound-is_reserved r res id same = rw (same, ne_is_empty r.id id) refl

if-eq-ok :
    (b : Bool) {x y : Result ResolveError Resolution} {res : Resolution} {P : Type 0}
    → (x ≡ ok res → P)
    → (y ≡ ok res → P)
    → (if b then x else y) ≡ ok res
    → P
if-eq-ok true f g e = f e
if-eq-ok false f g e = g e

first_free-is_reserved :
    (is_active : Bytes → Bool) (rs : List Reservation) (res : Resolution)
    → All (λ r. r.id ≢ []) rs
    → first_free is_active rs ≡ ok (some res)
    → is_reserved res ≡ true
unfolding first_free
first_free-is_reserved is_active [] res ids e = cc
first_free-is_reserved is_active (r ∷ rs) res (id, ids) e =
    elim (Bool-cases (is_active (reservation_subdomain r))) [
      | inl b ↦ first_free-is_reserved is_active rs res ids (ground arith)
      | inr f ↦ bound-is_reserved r res id (ground arith)
    ]

module _ (s : ReservationStore) (is_active : Bytes → Bool) (ids : HasIds s) where
  grant-is_reserved :
      (req : Request) (mismatch : ResolveError) (free res : Resolution)
      (found : Result StoreError Reservation)
      → ((r : Reservation) → found ≡ ok r → r.id ≢ [])
      → grant s true is_active req mismatch free found ≡ ok res
      → is_reserved res ≡ true
  grant-is_reserved req mismatch free res found id_of e =
      elim ((grant_iff s true is_active req mismatch free res found).0 e) [
        | inl (_, _, wrong) ↦ cc
        | inr (r, held, _, same) ↦ bound-is_reserved r res (id_of r held) same
      ]

  bind-is_reserved :
      (m : Result ResolveError (Option Resolution)) (free res : Resolution)
      → ((q : Resolution) → m ≡ ok (some q) → is_reserved q ≡ true)
      → (m >>= bound_or s true is_active free) ≡ ok res
      → is_reserved res ≡ true
  bind-is_reserved (ok none) free res h e = cc
  bind-is_reserved (ok (some q)) free res h e = h res (ground arith)
  bind-is_reserved (err x) free res h e = cc

  auto_bind-is_reserved :
      (req : Request) (family : Bytes) (q : Resolution)
      → auto_bind s true is_active req family ≡ ok (some q)
      → is_reserved q ≡ true
  unfolding auto_bind
  auto_bind-is_reserved req family q e =
      go (is_empty req.client_id) (s.for_client req.client_id family)
        (ids.listed req.client_id family) e
    where
      go :
          (anonymous : Bool) (found : Result StoreError (List Reservation))
          → ((rs : List Reservation) → found ≡ ok rs → All (λ r. r.id ≢ []) rs)
          → ◌≡◌ {A = Result ResolveError (Option Resolution)}
              (if anonymous then ok none else choose is_active found)
              (ok (some q))
          → is_reserved q ≡ true
      go true found all_ids e = cc
      go false (err x) all_ids e = cc
      go false (ok []) all_ids e = cc
      go false (ok (r ∷ rs)) all_ids e =
          first_free-is_reserved is_active (r ∷ rs) q (all_ids (r ∷ rs) refl) e

  -- A server that requires reservations grants nothing else: whatever the request asks for, a
  -- resolution it returns names a reservation, if each row of the store has an id.
  pub resolve-is_reserved :
      (req : Request) (res : Resolution)
      → resolve (record { store = some s; require_reservation = true }) is_active req ≡ ok res
      → is_reserved res ≡ true
  unfolding resolve resolve_stored resolve_http resolve_tcp
  resolve-is_reserved req res e =
      let name = trimmed req.requested_subdomain in
      if-eq-ok (str_eq (normalize_tunnel_type req.tunnel_type) tcp)
        (if-eq-ok (ltb 0 req.requested_tcp_port)
          (grant-is_reserved req port_reserved_by_another
            (ephemeral req.requested_subdomain req.requested_tcp_port) res (s.by_tcp_port _)
            (ids.on_port _))
          (bind-is_reserved (auto_bind s true is_active req tcp)
            (ephemeral req.requested_subdomain 0) res (auto_bind-is_reserved req tcp)))
        (if-eq-ok (is_empty name)
          (bind-is_reserved (auto_bind s true is_active req http) (ephemeral [] 0) res
            (auto_bind-is_reserved req http))
          (grant-is_reserved req reserved_by_another (ephemeral name 0) res (s.by_subdomain name)
            (ids.named name)))
        e
