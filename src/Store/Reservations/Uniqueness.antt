-- ===== src/Store/Reservations/Uniqueness.antt =====
-- A subdomain and a port are reserved at most once.
use drip_ex.Base.{
  ◌==◌, if◌then◌else◌, any, find?, select, All, Bytes, str_eq, str_eq_iff, is_empty, >>=-eq-ok,
  NoClash, select-NoClash, All-units, map-NoClash, ok, err, ℕ, zero, suc, ◌<◌, ◌≡◌, refl, subst,
  ◌∙◌, ◌≢◌, ◌↔◌, ◌⊎◌, inl, inr, false, not, ◌&&◌, none, List, [], ◌∷◌, map, arith,
}
use drip_ex.Store.Reservations.{
  Reservation, Known, not_found, collides, new_row, check_row, insert_row, create_reservation,
  has_id, has_subdomain, has_port, updated, update_reservation, delete_reservation,
  get_reservation_by_subdomain, get_reservation_by_tcp_port, trimmed,
}

-- Two rows have different ids, and share a subdomain or a port only where both have none.
pub record IsApart (r q : Reservation) : Type 0 where
  pub id : q.id ≢ r.id
  pub subdomain : (r.subdomain ≡ []) ⊎ (q.subdomain ≢ r.subdomain)
  pub tcp_port : (r.tcp_port ≡ 0) ⊎ (q.tcp_port ≢ r.tcp_port)

-- No two rows share an id, a subdomain or a port.
abbrev pub IsUnique : List Reservation → Type 0
IsUnique [] = Unit
IsUnique (r ∷ rows) = All (IsApart r) rows × IsUnique rows

str_ne : (a b : Bytes) → str_eq a b ≡ false → a ≢ b
str_ne a b h e = ground (arith, str_eq_iff a b)

apart_subdomain :
    (name other : Bytes)
    → (not (is_empty name) && str_eq other name) ≡ false
    → (name ≡ []) ⊎ (other ≢ name)
apart_subdomain [] other h = inl refl
apart_subdomain (c ∷ s) other h = inr (str_ne other (c ∷ s) h)

collides_apart :
    (name other : Bytes)
    → (name ≡ []) ⊎ (other ≢ name)
    → (not (is_empty name) && str_eq other name) ≡ false
collides_apart [] other h = refl
collides_apart (c ∷ s) other h = ground (arith, str_eq_iff other (c ∷ s))

apart_port :
    (port other : ℕ) → (not (port == 0) && other == port) ≡ false → (port ≡ 0) ⊎ (other ≢ port)
apart_port zero other h = inl refl
apart_port (suc n) other h = inr (λ e. ground arith)

collides_iff : (r q : Reservation) → (collides r q ≡ false) ↔ IsApart r q
unfolding collides
collides_iff r q = (
  λ h. record {
    id = str_ne q.id r.id (ground arith);
    subdomain = apart_subdomain r.subdomain q.subdomain (ground arith);
    tcp_port = apart_port r.tcp_port q.tcp_port (ground arith);
  },
  λ w. ground (
    arith,
    str_eq_iff q.id r.id,
    w.id,
    w.tcp_port,
    collides_apart r.subdomain q.subdomain w.subdomain,
  ),
)

collision_free_iff :
    (r : Reservation) (rows : List Reservation)
    → (any (collides r) rows ≡ false) ↔ All (IsApart r) rows
collision_free_iff r [] = (λ h. tt, λ h. refl)
collision_free_iff r (q ∷ rows) =
    let here = collides_iff r q in
    let rest = collision_free_iff r rows in
    (λ h. (here.0 (ground arith), rest.0 (ground arith)), λ (h, hs). rw (here.1 h) (rest.1 hs))

-- No row would be refused by the indexes over the rows after it.
pub uniqueness_iff : (rows : List Reservation) → NoClash collides rows ↔ IsUnique rows
uniqueness_iff [] = (λ h. tt, λ h. tt)
uniqueness_iff (r ∷ rows) =
    let here = collision_free_iff r rows in
    let rest = uniqueness_iff rows in
    (λ (h, hs). (here.0 h, rest.0 hs), λ (h, hs). (here.1 h, rest.1 hs))

pub insert_ok :
    (known : Known) (row : Reservation) (rows rows' : List Reservation)
    → insert_row known row rows ≡ ok rows'
    → (any (collides row) rows ≡ false) × (rows' ≡ row ∷ rows)
unfolding insert_row
insert_ok known row rows rows' e = ground arith

module _ (known : Known) (fresh_id : Bytes) (now : ℕ) (r : Reservation)
    (rows rows' : List Reservation)
    (e : create_reservation known fresh_id now r rows ≡ ok rows') where
  pub created :
      (any (collides (new_row fresh_id now r)) rows ≡ false)
      × (rows' ≡ new_row fresh_id now r ∷ rows)
  unfolding create_reservation
  created =
      let (_, _, inserted) = >>=-eq-ok (check_row (new_row fresh_id now r)) _ e in
      insert_ok known (new_row fresh_id now r) rows rows' inserted

  -- A reservation that is created keeps all ids different, and subdomains and ports different
  -- where they are set.
  pub create-IsUnique : IsUnique rows → IsUnique rows'
  create-IsUnique u =
      rw created.1 ((collision_free_iff (new_row fresh_id now r) rows).0 created.0, u)

free_subdomain :
    (row : Reservation) (name : Bytes) (rows : List Reservation)
    → any (collides row) rows ≡ false
    → row.subdomain ≡ name
    → is_empty name ≡ false
    → find? (has_subdomain name) rows ≡ none
unfolding collides
free_subdomain row name [] h e ne = refl
free_subdomain row name (q ∷ rows) h e ne =
    ground (arith, free_subdomain row name rows, str_eq_iff q.subdomain name)

free_port :
    (row : Reservation) (rows : List Reservation)
    → any (collides row) rows ≡ false
    → 0 < row.tcp_port
    → find? (has_port row.tcp_port) rows ≡ none
unfolding collides
free_port row [] h held = refl
free_port row (q ∷ rows) h held = ground (arith, free_port row rows)

-- A subdomain that is more than spaces and gets reserved was nobody's; from then on the
-- reservation is found under it, in any spelling that trims and lower-cases to it, and every
-- other name finds what it found before.
pub get-create_reservation :
    (known : Known) (fresh_id : Bytes) (now : ℕ) (r : Reservation) (rows rows' : List Reservation)
    (name : Bytes)
    → is_empty (trimmed r.subdomain) ≡ false
    → create_reservation known fresh_id now r rows ≡ ok rows'
    → (get_reservation_by_subdomain rows r.subdomain ≡ err not_found)
      × (get_reservation_by_subdomain rows' name ≡ (
          if str_eq (trimmed r.subdomain) (trimmed name)
          then ok (new_row fresh_id now r)
          else get_reservation_by_subdomain rows name))
unfolding get_reservation_by_subdomain new_row
get-create_reservation known fresh_id now r rows rows' name ne e =
    let (free, same) = created known fresh_id now r rows rows' e in
    let gone = free_subdomain (new_row fresh_id now r) (trimmed r.subdomain) rows free refl ne in
    (rw gone refl, rw same (ground arith))

-- A TCP port that gets reserved was nobody's; from then on the reservation is found under it, and
-- every other port finds what it found before.
pub get_port-create_reservation :
    (known : Known) (fresh_id : Bytes) (now : ℕ) (r : Reservation) (rows rows' : List Reservation)
    (port : ℕ)
    → 0 < r.tcp_port
    → create_reservation known fresh_id now r rows ≡ ok rows'
    → (get_reservation_by_tcp_port rows r.tcp_port ≡ err not_found)
      × (get_reservation_by_tcp_port rows' port ≡ (
          if r.tcp_port == port
          then ok (new_row fresh_id now r)
          else get_reservation_by_tcp_port rows port))
unfolding get_reservation_by_tcp_port new_row
get_port-create_reservation known fresh_id now r rows rows' port held e =
    let (free, same) = created known fresh_id now r rows rows' e in
    let gone = free_port (new_row fresh_id now r) rows free held in
    (rw gone refl, rw same (ground arith))

collides-updated :
    (now : ℕ) (r row q : Reservation)
    → collides (updated now r row) (updated now r q) ≡ collides row q
unfolding collides
collides-updated now r row q = ground arith

updated-NoClash :
    (now : ℕ) (r : Reservation) (rows : List Reservation)
    → NoClash collides rows
    → NoClash collides (map (updated now r) rows)
updated-NoClash now r rows u =
    map-NoClash (λ a. Unit) collides (updated now r) rows
      (λ a b p q h. collides-updated now r a b ∙ h) (All-units rows) u

-- Updating and deleting reservations keeps all ids different, and subdomains and ports different
-- where they are set.
pub update_delete-IsUnique :
    (known : Known) (now : ℕ) (r : Reservation) (id : Bytes) (rows rows' : List Reservation)
    → (update_reservation known now r rows ≡ ok rows') ⊎ (delete_reservation id rows ≡ ok rows')
    → IsUnique rows
    → IsUnique rows'
unfolding update_reservation delete_reservation
update_delete-IsUnique known now r id rows rows' (inl e) u =
    let same : map (updated now r) rows ≡ rows' = ground arith in
    subst IsUnique same
      ((uniqueness_iff _).0 (updated-NoClash now r rows ((uniqueness_iff rows).1 u)))
update_delete-IsUnique known now r id rows rows' (inr e) u =
    let same : select (λ q. not (has_id id q)) rows ≡ rows' = ground arith in
    subst IsUnique same
      ((uniqueness_iff _).0 (select-NoClash collides _ rows ((uniqueness_iff rows).1 u)))
