-- ===== src/Admin/Resources.antt =====
-- The routes of the panel that change accounts, clients and reservations, behind the guard
-- `adminOnly`: internal/server/admin/api_resources.go. Bodies are decoded, `none` being a field that
-- is not there; the entries of the audit log are left out, and `authenticator` is `none` where the
-- panel has none.
pub mod Effects
pub mod Races
pub mod Pin
use drip_ex.Base.{
  ltb, leb, ◌==◌, if◌then◌else◌, ==_iff, Bool-cases, and-eq-true, Option-cases, is_some, or_default,
  if_cases, length, get_or, set, take, drop, replicate, all, any, find?, select, All, length-append,
  length-set, get_or-set_self, get_or-set_ne, take-length_append, drop-length_append, Bytes, codes,
  str_eq, str_eq_iff, str_eq_refl, is_empty, is_empty_ne, ne_is_empty, is_upper, is_digit, is_space,
  lower_byte, upper_byte, to_lower, to_upper, trim_left, trim_space, strip_prefix, contains_byte,
  equal_fold, Map, lookup, insert, delete, lookup-insert, lookup-delete, Distinct, insert-Distinct,
  delete-Distinct, delete_absent, count, count-insert, count-replace, count-delete, tally,
  increment, decrement, tally-increment, tally-decrement, decrement-increment, Result, refuse_if,
  ◌>>=◌, ◌>>◌, >>=-eq-ok, ℤ, pos_part, neg_part, ◌≤ℤ◌, ltb_ℤ, NoClash, select-NoClash, All-map,
  All-weaken, All-select, any-All, All-any, All-both, All-units, any-map, any-select, map-NoClash,
  map-NoClash_pairs, find-All, find-select_kept, find-select_gone, find-map, find-NoClash, ok, err,
  pos, negsuc, ℕ, zero, suc, ◌+◌, ◌-◌, ◌*◌, ◌/◌, ◌%◌, ◌^◌, ◌≤◌, ◌<◌, min, bit_xor, String, ◌≡◌,
  refl, sym, ap, subst, ◌∙◌, ◌≢◌, ◌↔◌, ◌⊎◌, inl, inr, Bool, true, false, not, ◌&&◌, ◌||◌, Option,
  none, some, List, [], ◌∷◌, ◌++◌, map, arith, ℕ_discrete,
}
use drip_ex.Names.{http, tcp}
use drip_ex.Store.Reservations.{
  Reservation, StoreError, Known, new_row, trimmed, create_reservation, update_reservation,
  delete_reservation, get_reservation,
}
use drip_ex.Store.Database.{
  Account, Client, Database, known_rows, is_owned_by, new_account, create_account, get_account,
  update_account, delete_account, create_client, get_client, update_client, rotate_client_secret,
  delete_client, with_reservations,
}
use drip_ex.Store.Sessions.{SessionRow}
use drip_ex.Auth.Credentials.{Credential, show_credential}
use drip_ex.Auth.Authenticator.{Authenticator, invalidate, invalidate_all}
use drip_ex.Admin.Panel.{Reply, store_status, or_status, bad_request}

pub record Console : Type 0 where
  pub database : Database
  pub sessions : List SessionRow
  pub authenticator : Option Authenticator
  -- 0 where the deployment did not report its range.
  pub tcp_port_min : ℕ
  pub tcp_port_max : ℕ

abbrev pub by_status {ℓ} : {A : Type ℓ} → Result StoreError A → Result ℕ A
by_status (err e) = err (store_status e)
by_status (ok a) = ok a

abbrev pub with_invalid : List Bytes → Option Authenticator → Option Authenticator
with_invalid ids none = none
with_invalid [] (some a) = some a
with_invalid (id ∷ ids) (some a) = with_invalid ids (some (invalidate id a))

unfoldable pub invalidate_client : Bytes → Console → Console
invalidate_client id c = record c { authenticator = with_invalid (id ∷ []) c.authenticator }

-- The credentials of an account, as `ListClients` returns them.
abbrev pub ids_of : List Client → List Bytes
ids_of [] = []
ids_of (c ∷ clients) = c.id ∷ ids_of clients

-- Where the credentials cannot be listed, the whole cache is cleared.
abbrev pub with_listing : Option (List Bytes) → Option Authenticator → Option Authenticator
with_listing none none = none
with_listing none (some a) = some (invalidate_all a)
with_listing (some ids) a = with_invalid ids a

-- `lists` tells whether the store lists the clients of the account, or fails.
unfoldable pub invalidate_account : (lists : Bool) → Bytes → Console → Console
invalidate_account lists id c = record c {
  authenticator =
      with_listing
        (if lists then some (ids_of (select (is_owned_by id) c.database.clients)) else none)
        c.authenticator;
}

-- `fresh_id` is drawn by the store; moments are in seconds, as the store has them.
unfoldable pub handle_create_account :
    Bytes → ℕ → (name : Bytes) → (max_tunnels : ℤ) → Console → Reply (Console × Account)
handle_create_account fresh_id now name max_tunnels c = do
  made ← by_status (create_account fresh_id now name max_tunnels c.database)
  ok (record c { database = made.0 }, made.1)

unfoldable pub handle_update_account :
    (lists : Bool)
    → ℕ
    → (id : Bytes) → Option Bytes
    → Option Bool
    → Option ℤ
    → Console
    → Reply Console
handle_update_account lists now id name enabled max_tunnels c = do
  a ← by_status (get_account c.database id)
  db ← by_status (
      update_account now
        (record a {
          name = or_default a.name name;
          enabled = or_default a.enabled enabled;
          max_tunnels = or_default a.max_tunnels max_tunnels;
        })
        c.database)
  ok (invalidate_account lists a.id (record c { database = db }))

abbrev pub put_database : Console → Result StoreError Database → Console × Reply (Unit {0})
put_database c (err e) = (c, err (store_status e))
put_database c (ok db) = (record c { database = db }, ok tt)

-- The credentials are dropped from the cache first, while their rows can still be listed.
unfoldable pub handle_delete_account : (lists : Bool) → Bytes → Console → Console × Reply (Unit {0})
handle_delete_account lists id c =
    put_database (invalidate_account lists id c) (delete_account id c.database)

-- `drawn` is what `GenerateCredential` makes; the reply shows the token.
unfoldable pub handle_create_client :
    (Bytes → Bytes)
    → ℕ
    → Credential
    → (account_id name bandwidth : Bytes) → Console
    → Reply (Console × Bytes)
handle_create_client hash now drawn account_id name bandwidth c = do
  db ← by_status (
      create_client now
        (record {
          id = drawn.id;
          account_id = account_id;
          name = name;
          secret_hash = hash drawn.secret;
          enabled = true;
          bandwidth = bandwidth;
          last_seen_at = none;
          last_seen_ip = [];
          created_at = now;
          updated_at = now;
        })
        c.database)
  ok (record c { database = db }, show_credential drawn)

unfoldable pub handle_update_client :
    ℕ → (id : Bytes) → Option Bytes → Option Bool → Option Bytes → Console → Reply Console
handle_update_client now id name enabled bandwidth c = do
  row ← by_status (get_client c.database id)
  db ← by_status (
      update_client now
        (record row {
          name = or_default row.name name;
          enabled = or_default row.enabled enabled;
          bandwidth = or_default row.bandwidth bandwidth;
        })
        c.database)
  ok (invalidate_client row.id (record c { database = db }))

unfoldable pub handle_rotate_client :
    (Bytes → Bytes) → ℕ → Credential → Bytes → Console → Reply (Console × Bytes)
handle_rotate_client hash now drawn id c = do
  row ← by_status (get_client c.database id)
  db ← by_status (rotate_client_secret now row.id (hash drawn.secret) c.database)
  ok (
    invalidate_client row.id (record c { database = db }),
    show_credential (record drawn { id = row.id }),
  )

unfoldable pub handle_delete_client : Bytes → Console → Console × Reply (Unit {0})
handle_delete_client id c = put_database (invalidate_client id c) (delete_client id c.database)

unfoldable pub check_tcp_port_range : Console → ℕ → Reply (Unit {0})
check_tcp_port_range c port =
    if c.tcp_port_min == 0 || c.tcp_port_max == 0
    then ok tt
    else refuse_if (ltb port c.tcp_port_min || ltb c.tcp_port_max port) bad_request

-- The client that a reservation is to be bound to is one of its account.
unfoldable pub check_reservation_client : Database → Bytes → Option Bytes → Reply (Unit {0})
check_reservation_client db account_id none = ok tt
check_reservation_client db account_id (some []) = ok tt
check_reservation_client db account_id (some (b ∷ id)) = do
  client ← or_status bad_request (get_client db (b ∷ id))
  refuse_if (not (str_eq client.account_id account_id)) bad_request

abbrev pub put_reservations : Console → List Reservation → Console
put_reservations c rows = record c { database = record c.database { reservations = rows } }

-- A reservation that is asked for and has no id and no dates yet.
abbrev pub asked : Bytes → Option Bytes → Bytes → Bytes → ℕ → Bytes → Reservation
asked account_id client_id tunnel_type subdomain tcp_port bandwidth = record {
  id = [];
  account_id = account_id;
  client_id = client_id;
  tunnel_type = tunnel_type;
  subdomain = subdomain;
  tcp_port = tcp_port;
  bandwidth = bandwidth;
  enabled = true;
  created_at = 0;
  updated_at = 0;
}

unfoldable pub insert_checked : Bytes → ℕ → Reservation → Console → Reply (Console × Reservation)
insert_checked fresh_id now r c = do
  check_reservation_client c.database r.account_id r.client_id
  rows ←
      by_status (create_reservation (known_rows c.database) fresh_id now r c.database.reservations)
  ok (put_reservations c rows, new_row fresh_id now r)

unfoldable pub handle_create_reservation :
    Bytes
    → ℕ
    → (account_id : Bytes) → Option Bytes
    → (subdomain : Bytes) → (tcp_port : ℕ) → (bandwidth : Bytes) → Console
    → Reply (Console × Reservation)
handle_create_reservation fresh_id now account_id client_id subdomain tcp_port bandwidth c =
    let nameless = is_empty (trim_space subdomain) in
    let portless = tcp_port == 0 in
    let kind = if is_empty subdomain then tcp else http in
    (do
      refuse_if ((nameless && portless) || (not nameless && not portless)) bad_request
      (if portless then ok tt else check_tcp_port_range c tcp_port)
      insert_checked fresh_id now (asked account_id client_id kind subdomain tcp_port bandwidth) c)

-- An empty client clears the binding.
abbrev rebound_client : Option Bytes → Option Bytes → Option Bytes
rebound_client before none = before
rebound_client before (some []) = none
rebound_client before (some (b ∷ id)) = some (b ∷ id)

unfoldable pub handle_update_reservation :
    ℕ → (id : Bytes) → Option Bytes → Option Bool → Option Bytes → Console → Reply Console
handle_update_reservation now id client_id enabled bandwidth c = do
  row ← by_status (get_reservation c.database.reservations id)
  (let client = rebound_client row.client_id client_id in
      (do
        check_reservation_client c.database row.account_id client
        rows ← by_status (
            update_reservation (known_rows c.database) now
              (record row {
                client_id = client;
                enabled = or_default row.enabled enabled;
                bandwidth = or_default row.bandwidth bandwidth;
              })
              c.database.reservations)
        ok (put_reservations c rows)))

unfoldable pub handle_delete_reservation : Bytes → Console → Reply Console
handle_delete_reservation id c = do
  rows ← by_status (delete_reservation id c.database.reservations)
  ok (put_reservations c rows)
