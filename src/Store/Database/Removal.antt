-- ===== src/Store/Database/Removal.antt =====
-- What goes with an account or a client that is deleted.
use mathlib.Core.Option
use drip_ex.Base.{
  if◌then◌else◌, any, find?, select, Bytes, str_eq_iff, is_empty, Result, NoClash, ok, err, ◌≡◌,
  refl, ap, subst, ◌∙◌, Bool, true, false, not, Option, none, some, List, [], ◌∷◌, map, arith,
}
use drip_ex.Store.Reservations.{
  Reservation, StoreError, not_found, one_row, collides, has_subdomain, trimmed,
  get_reservation_by_subdomain,
}
use drip_ex.Store.Database.{
  Account, Client, Database, is_account, is_client, get_client, get_account, delete_account,
  drop_clients, is_owned_by, is_reserved_by, unbound, clients_clash,
}
use drip_ex.Store.Reservations.Uniqueness.{uniqueness_iff}
use drip_ex.Store.Database.Consistency.{IsConsistent}

module _ {A : Type 0} where
  abbrev left_of : (A → Bool) → Option A → Option A
  left_of gone none = none
  left_of gone (some a) = if gone a then none else some a

  find-absent :
      (gone key : A → Bool) (rows : List A)
      → find? key rows ≡ none
      → find? key (select (λ a. not (gone a)) rows) ≡ none
  find-absent gone key [] h = refl
  find-absent gone key (a ∷ rows) h = ground (arith, find-absent gone key rows)

  module _ (clash : A → A → Bool) (key : A → Bool)
      (differ : (a b : A) → clash a b ≡ false → key a ≡ true → key b ≡ false) where
    find_after :
        (a : A) (rows : List A) → any (clash a) rows ≡ false → key a ≡ true → find? key rows ≡ none
    find_after a [] free here = refl
    find_after a (b ∷ rows) free here =
        rw (differ a b (ground arith) here) (find_after a rows (ground arith) here)

    -- With different keys, a row that is gone leaves nothing to find under its key.
    find-select :
        (gone : A → Bool) (rows : List A)
        → NoClash clash rows
        → find? key (select (λ a. not (gone a)) rows) ≡ left_of gone (find? key rows)
    find-select gone [] u = refl
    find-select gone (a ∷ rows) u =
        ground (arith, find-select gone rows u.1, find-absent gone key rows, find_after a rows u.0)

find-map :
    (f : Reservation → Reservation) (key : Reservation → Bool) (rows : List Reservation)
    → ((r : Reservation) → key (f r) ≡ key r)
    → find? key (map f rows) ≡ Option.map f (find? key rows)
find-map f key [] same = refl
find-map f key (r ∷ rows) same = ground (arith, same r, find-map f key rows same)

find-without :
    (key : Account → Bool) (rows : List Account) → find? key (select (λ a. not (key a)) rows) ≡ none
find-without key [] = refl
find-without key (a ∷ rows) = ground (arith, find-without key rows)

-- What is left of a client that the account `id` may own.
abbrev pub if_not_owned : Bytes → Result StoreError Client → Result StoreError Client
if_not_owned id (err e) = err e
if_not_owned id (ok c) = if is_owned_by id c then err not_found else ok c

-- What is left of a reservation that the account `id` may own, where `known` clients are left.
abbrev pub if_not_reserved :
    Bytes → (Bytes → Bool) → Result StoreError Reservation → Result StoreError Reservation
if_not_reserved id known (err e) = err e
if_not_reserved id known (ok r) =
    if is_reserved_by id r then err not_found else ok (unbound known r)

one_row-left_of :
    (id : Bytes) (found : Option Client)
    → one_row (left_of (is_owned_by id) found) ≡ if_not_owned id (one_row found)
one_row-left_of id none = refl
one_row-left_of id (some c) = ground arith

one_row-map :
    (id : Bytes) (known : Bytes → Bool) (found : Option Reservation)
    → one_row (Option.map (unbound known) (left_of (is_reserved_by id) found))
      ≡ if_not_reserved id known (one_row found)
one_row-map id known none = refl
one_row-map id known (some r) = ground arith

clients_differ :
    (id : Bytes) (c d : Client)
    → clients_clash c d ≡ false
    → is_client id c ≡ true
    → is_client id d ≡ false
unfolding clients_clash
clients_differ id c d free here =
    ground (arith, str_eq_iff c.id id, str_eq_iff d.id id, str_eq_iff d.id c.id)

subdomains_differ :
    (name : Bytes) (ne : is_empty name ≡ false) (r q : Reservation)
    → collides r q ≡ false
    → has_subdomain name r ≡ true
    → has_subdomain name q ≡ false
unfolding collides
subdomains_differ name ne r q free here = ground (
  arith,
  str_eq_iff r.subdomain name,
  str_eq_iff q.subdomain name,
  str_eq_iff q.subdomain r.subdomain,
)

-- On a consistent database, an account that is deleted is gone with its clients and its
-- reservations: their names are free again. Every other client is found as before, and every other
-- reservation of a name that is more than spaces is found as before, but bound to no client where
-- its client is gone.
pub delete_account_lem :
    (id client name : Bytes) (db db' : Database)
    → IsConsistent db
    → is_empty (trimmed name) ≡ false
    → delete_account id db ≡ ok db'
    → (get_account db' id ≡ err not_found)
      × (get_client db' client ≡ if_not_owned id (get_client db client))
      × (get_reservation_by_subdomain db'.reservations name
          ≡ if_not_reserved id
              (λ c. any (is_client c) db'.clients)
              (get_reservation_by_subdomain db.reservations name))
unfolding delete_account drop_clients get_client get_account get_reservation_by_subdomain
delete_account_lem id client name db db' inv ne e =
    let left = record db {
      accounts = select (λ a. not (is_account id a)) db.accounts;
      reservations = select (λ r. not (is_reserved_by id r)) db.reservations;
    } in
    let same : drop_clients (is_owned_by id) left ≡ db' = ground arith in
    let known : Bytes → Bool =
      λ c. any (is_client c) (select (λ d. not (is_owned_by id d)) db.clients) in
    let key = has_subdomain (trimmed name) in
    subst
      (λ out.
        (get_account out id ≡ err not_found)
        × (get_client out client ≡ if_not_owned id (get_client db client))
        × (get_reservation_by_subdomain out.reservations name
            ≡ if_not_reserved id (λ c. any (is_client c) out.clients)
                (get_reservation_by_subdomain db.reservations name)))
      same
      (
        ap one_row (find-without (is_account id) db.accounts),
        ap one_row (
              find-select clients_clash (is_client client) (clients_differ client) (is_owned_by id)
                db.clients inv.clients)
            ∙ one_row-left_of id (find? (is_client client) db.clients),
        ap one_row (
              find-map (unbound known) key left.reservations (λ r. ground arith)
              ∙ ap (Option.map (unbound known)) (
                  find-select collides key (subdomains_differ (trimmed name) ne) (is_reserved_by id)
                    db.reservations ((uniqueness_iff db.reservations).1 inv.reservations)))
            ∙ one_row-map id known (find? key db.reservations),
      )
