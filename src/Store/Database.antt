-- ===== src/Store/Database.antt =====
-- The tables `accounts` and `clients` of internal/server/store/accounts.go and clients.go beside
-- the reservations, with the unique indexes and the references of internal/server/store/schema.go.
-- A statement of SQL is one step: it takes effect as a whole or not at all.
pub mod Statements
pub mod Consistency
pub mod Integrity
pub mod Removal
use drip_ex.Base.{
  ltb, leb, ◌==◌, if◌then◌else◌, ==_iff, Bool-cases, and-eq-true, Option-cases, is_some, or_default,
  length, get_or, set, take, drop, replicate, all, any, find?, select, All, length-append,
  length-set, get_or-set_self, get_or-set_ne, take-length_append, drop-length_append, Bytes, codes,
  str_eq, str_eq_iff, str_eq_refl, is_empty, is_empty_ne, ne_is_empty, is_upper, is_digit, is_space,
  lower_byte, upper_byte, to_lower, to_upper, trim_left, trim_space, strip_prefix, contains_byte,
  equal_fold, Map, lookup, insert, delete, lookup-insert, lookup-delete, Distinct, insert-Distinct,
  delete-Distinct, delete_absent, count, count-insert, count-replace, count-delete, tally,
  increment, decrement, tally-increment, tally-decrement, decrement-increment, Result, refuse_if,
  ◌>>=◌, ◌>>◌, >>=-eq-ok, ℤ, pos_part, neg_part, ◌≤ℤ◌, ltb_ℤ, NoClash, select-NoClash, All-map,
  All-weaken, All-select, any-All, All-any, All-both, map-NoClash, ok, err, pos, negsuc, ℕ, zero,
  suc, ◌+◌, ◌-◌, ◌*◌, ◌/◌, ◌%◌, ◌^◌, ◌≤◌, ◌<◌, min, bit_xor, String, ◌≡◌, refl, sym, ap, subst, ◌∙◌,
  ◌≢◌, ◌↔◌, ◌⊎◌, inl, inr, Bool, true, false, not, ◌&&◌, ◌||◌, Option, none, some, List, [], ◌∷◌,
  ◌++◌, map, arith, ℕ_discrete,
}
use drip_ex.Store.Reservations.{
  Reservation, StoreError, Known, not_found, conflict, failed, missing_field, negative_limit,
  one_row, refers, create_reservation, update_reservation, delete_reservation,
}

pub record Account : Type 0 where
  pub id : Bytes
  pub name : Bytes
  pub enabled : Bool
  -- 0 means unlimited.
  pub max_tunnels : ℤ
  -- In seconds.
  pub created_at : ℕ
  pub updated_at : ℕ

pub record Client : Type 0 where
  pub id : Bytes
  pub account_id : Bytes
  pub name : Bytes
  pub secret_hash : Bytes
  pub enabled : Bool
  pub bandwidth : Bytes
  -- `none` is NULL.
  pub last_seen_at : Option ℕ
  pub last_seen_ip : Bytes
  pub created_at : ℕ
  pub updated_at : ℕ

pub record Database : Type 0 where
  pub accounts : List Account
  pub clients : List Client
  pub reservations : List Reservation

abbrev pub empty_database : Database
empty_database = record { accounts = []; clients = []; reservations = [] }

abbrev pub is_account : Bytes → Account → Bool
is_account id a = str_eq a.id id

abbrev pub is_client : Bytes → Client → Bool
is_client id c = str_eq c.id id

-- The references of the rows stand on the accounts and clients that are there.
unfoldable pub known_rows : Database → Known
known_rows db = record {
  account = λ id. any (is_account id) db.accounts;
  client = λ id. any (is_client id) db.clients;
}

-- Two accounts share the primary key or the name.
unfoldable pub accounts_clash : Account → Account → Bool
accounts_clash a b = str_eq b.id a.id || str_eq b.name a.name

-- `fresh_id` is what `utils.GenerateID` returns.
abbrev pub new_account : Bytes → ℕ → Bytes → ℤ → Account
new_account fresh_id now name max_tunnels = record {
  id = fresh_id;
  name = trim_space name;
  enabled = true;
  max_tunnels = max_tunnels;
  created_at = now;
  updated_at = now;
}

unfoldable pub create_account :
    Bytes → ℕ → Bytes → ℤ → Database → Result StoreError (Database × Account)
create_account fresh_id now name max_tunnels db = do
  refuse_if (is_empty (trim_space name)) missing_field
  refuse_if (ltb_ℤ max_tunnels (pos 0)) negative_limit
  refuse_if (any (accounts_clash (new_account fresh_id now name max_tunnels)) db.accounts) conflict
  ok (
    record db { accounts = new_account fresh_id now name max_tunnels ∷ db.accounts },
    new_account fresh_id now name max_tunnels,
  )

unfoldable pub get_account : Database → Bytes → Result StoreError Account
get_account db id = one_row (find? (is_account id) db.accounts)

unfoldable pub get_account_by_name : Database → Bytes → Result StoreError Account
get_account_by_name db name = one_row (find? (λ a. str_eq a.name name) db.accounts)

abbrev pub updated_account : ℕ → Account → Account → Account
updated_account now a row =
    if is_account a.id row
    then record row {
      name = a.name;
      enabled = a.enabled;
      max_tunnels = a.max_tunnels;
      updated_at = now;
    }
    else row

-- Another account has the name.
abbrev pub takes_account_name : Account → Account → Bool
takes_account_name a row = not (is_account a.id row) && str_eq row.name a.name

unfoldable pub update_account : ℕ → Account → Database → Result StoreError Database
update_account now a db = do
  refuse_if (is_empty a.id) missing_field
  refuse_if (ltb_ℤ a.max_tunnels (pos 0)) negative_limit
  refuse_if (not (any (is_account a.id) db.accounts)) not_found
  refuse_if (any (takes_account_name a) db.accounts) conflict
  ok (record db { accounts = map (updated_account now a) db.accounts })

-- `ON DELETE SET NULL` of a reservation's client.
abbrev pub unbound : (Bytes → Bool) → Reservation → Reservation
unbound known r = if refers known r.client_id then r else record r { client_id = none }

abbrev pub is_owned_by : Bytes → Client → Bool
is_owned_by account c = str_eq c.account_id account

abbrev pub is_reserved_by : Bytes → Reservation → Bool
is_reserved_by account r = str_eq r.account_id account

-- The clients that are left, and the reservations with their references to the others cleared.
unfoldable pub drop_clients : (Client → Bool) → Database → Database
drop_clients gone db = record db {
  clients = select (λ c. not (gone c)) db.clients;
  reservations =
      map (unbound (λ id. any (is_client id) (select (λ c. not (gone c)) db.clients)))
        db.reservations;
}

-- The account's clients and reservations go with it (`ON DELETE CASCADE`).
unfoldable pub delete_account : Bytes → Database → Result StoreError Database
delete_account id db = do
  refuse_if (not (any (is_account id) db.accounts)) not_found
  ok (
      drop_clients (is_owned_by id) (record db {
        accounts = select (λ a. not (is_account id a)) db.accounts;
        reservations = select (λ r. not (is_reserved_by id r)) db.reservations;
      }))

-- Two clients share the primary key, or the name within an account.
unfoldable pub clients_clash : Client → Client → Bool
clients_clash c d = str_eq d.id c.id || (str_eq d.account_id c.account_id && str_eq d.name c.name)

abbrev pub new_client : ℕ → Client → Client
new_client now c = record c {
  name = trim_space c.name;
  last_seen_at = none;
  created_at = now;
  updated_at = now;
}

unfoldable pub create_client : ℕ → Client → Database → Result StoreError Database
create_client now c db = do
  refuse_if (is_empty c.id || is_empty c.secret_hash) missing_field
  refuse_if (is_empty (trim_space c.name)) missing_field
  refuse_if (is_empty c.account_id) missing_field
  refuse_if (any (clients_clash (new_client now c)) db.clients) conflict
  refuse_if (not (any (is_account c.account_id) db.accounts)) failed
  ok (record db { clients = new_client now c ∷ db.clients })

unfoldable pub get_client : Database → Bytes → Result StoreError Client
get_client db id = one_row (find? (is_client id) db.clients)

abbrev pub updated_client : ℕ → Client → Client → Client
updated_client now c row =
    if is_client c.id row
    then record row {
      name = trim_space c.name;
      enabled = c.enabled;
      bandwidth = c.bandwidth;
      updated_at = now;
    }
    else row

-- The row that is to get the name, and another client of its account that has it.
abbrev pub takes_client_name : Client → Client → Client → Bool
takes_client_name c row other =
    is_client c.id row
    && not (is_client c.id other)
    && str_eq other.account_id row.account_id
    && str_eq other.name (trim_space c.name)

unfoldable pub update_client : ℕ → Client → Database → Result StoreError Database
update_client now c db = do
  refuse_if (is_empty c.id) missing_field
  refuse_if (is_empty (trim_space c.name)) missing_field
  refuse_if (not (any (is_client c.id) db.clients)) not_found
  refuse_if (any (λ row. any (takes_client_name c row) db.clients) db.clients) conflict
  ok (record db { clients = map (updated_client now c) db.clients })

abbrev pub with_secret : ℕ → Bytes → Bytes → Client → Client
with_secret now id secret_hash row =
    if is_client id row then record row { secret_hash = secret_hash; updated_at = now } else row

unfoldable pub rotate_client_secret : ℕ → Bytes → Bytes → Database → Result StoreError Database
rotate_client_secret now id secret_hash db = do
  refuse_if (is_empty secret_hash) missing_field
  refuse_if (not (any (is_client id) db.clients)) not_found
  ok (record db { clients = map (with_secret now id secret_hash) db.clients })

unfoldable pub delete_client : Bytes → Database → Result StoreError Database
delete_client id db = do
  refuse_if (not (any (is_client id) db.clients)) not_found
  ok (drop_clients (is_client id) db)

abbrev pub seen : ℕ → Bytes → Bytes → Client → Client
seen now id remote_ip row =
    if is_client id row
    then record row { last_seen_at = some now; last_seen_ip = remote_ip }
    else row

-- A client that is not there is no error.
unfoldable pub touch_client : ℕ → Bytes → Bytes → Database → Database
touch_client now id remote_ip db = record db { clients = map (seen now id remote_ip) db.clients }

abbrev pub with_reservations :
    Database → Result StoreError (List Reservation) → Result StoreError Database
with_reservations db (err e) = err e
with_reservations db (ok rows) = ok (record db { reservations = rows })
