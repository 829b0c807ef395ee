-- ===== src/Store/Reservations.antt =====
-- The reservations of internal/server/store/reservations.go: the table `tunnel_reservations` as a
-- list of rows, and the program's SQL statements over it with the unique indexes and references of
-- internal/server/store/schema.go. A fault of the database itself is in the interface
-- `ReservationStore`, which the resolver uses.
pub mod Uniqueness
pub mod Queries
use drip_ex.Base.{
  ltb, leb, ◌==◌, if◌then◌else◌, ==_iff, Bool-cases, and-eq-true, Option-cases, is_some, or_default,
  length, get_or, set, take, drop, replicate, all, any, find?, select, All, length-append,
  length-set, get_or-set_self, get_or-set_ne, take-length_append, drop-length_append, Bytes, codes,
  str_eq, str_eq_iff, str_eq_refl, is_empty, is_upper, is_digit, is_space, lower_byte, upper_byte,
  to_lower, to_upper, trim_left, trim_space, strip_prefix, contains_byte, equal_fold, Map, lookup,
  insert, delete, lookup-insert, lookup-delete, Distinct, insert-Distinct, delete-Distinct,
  delete_absent, count, count-insert, count-delete, tally, increment, decrement, tally-increment,
  tally-decrement, decrement-increment, Result, ◌>>=◌, ◌>>◌, refuse_if, >>=-eq-ok, ℤ, pos_part,
  neg_part, ◌≤ℤ◌, ltb_ℤ, ok, err, pos, negsuc, ℕ, zero, suc, ◌+◌, ◌-◌, ◌*◌, ◌/◌, ◌%◌, ◌^◌, ◌≤◌, ◌<◌,
  min, bit_xor, String, ◌≡◌, refl, sym, ap, subst, ◌∙◌, ◌≢◌, ◌↔◌, ◌⊎◌, inl, inr, Bool, true, false,
  not, ◌&&◌, ◌||◌, Option, none, some, List, [], ◌∷◌, ◌++◌, map, arith, ℕ_discrete,
}
use drip_ex.Names.{http, tcp, validate_subdomain, is_reserved, normalize_tunnel_type}

pub record Reservation : Type 0 where
  pub id : Bytes
  pub account_id : Bytes
  -- `none` is NULL.
  pub client_id : Option Bytes
  pub tunnel_type : Bytes
  pub subdomain : Bytes
  pub tcp_port : ℕ
  pub bandwidth : Bytes
  pub enabled : Bool
  -- In seconds.
  pub created_at : ℕ
  pub updated_at : ℕ

pub data StoreError : Type 0 where
  not_found conflict failed : StoreError
  missing_field bad_subdomain taboo_subdomain bad_port unknown_type negative_limit : StoreError
  unknown_role : StoreError

-- `nullString`, and back by `strPtr`.
abbrev pub null_string : Option Bytes → Option Bytes
null_string none = none
null_string (some []) = none
null_string (some (c ∷ s)) = some (c ∷ s)

abbrev pub trimmed : Bytes → Bytes
trimmed s = to_lower (trim_space s)

-- `subdomain = ?`, on a row.
abbrev pub has_subdomain : Bytes → Reservation → Bool
has_subdomain name r = str_eq r.subdomain name

abbrev pub has_port : ℕ → Reservation → Bool
has_port port r = r.tcp_port == port

abbrev pub has_id : Bytes → Reservation → Bool
has_id id r = str_eq r.id id

abbrev is_bound_to : Bytes → Option Bytes → Bool
is_bound_to client none = false
is_bound_to client (some c) = str_eq c client

-- The primary key and the two partial unique indexes refuse the row.
unfoldable pub collides : Reservation → Reservation → Bool
collides r row =
    has_id r.id row
    || (not (is_empty r.subdomain) && has_subdomain r.subdomain row)
    || (not (r.tcp_port == 0) && has_port r.tcp_port row)

abbrev check_target : Bytes → Reservation → Result StoreError (Unit {0})
check_target kind r =
    if str_eq kind http
    then (do
      refuse_if (is_empty r.subdomain) missing_field
      refuse_if (not (r.tcp_port == 0)) bad_port
      refuse_if (not (validate_subdomain r.subdomain)) bad_subdomain
      refuse_if (is_reserved r.subdomain) taboo_subdomain)
    else if str_eq kind tcp
    then (do
      refuse_if (ltb r.tcp_port 1 || ltb 65535 r.tcp_port) bad_port
      refuse_if (not (is_empty r.subdomain)) bad_subdomain)
    else err unknown_type

-- The row that `CreateReservation` inserts.
unfoldable pub new_row : Bytes → ℕ → Reservation → Reservation
new_row fresh_id now r = record r {
  id = if is_empty r.id then fresh_id else r.id;
  client_id = null_string r.client_id;
  tunnel_type = normalize_tunnel_type r.tunnel_type;
  subdomain = trimmed r.subdomain;
  created_at = now;
  updated_at = now;
}

abbrev pub refers : (Bytes → Bool) → Option Bytes → Bool
refers known none = true
refers known (some c) = known c

-- What the statement stands on: the accounts and clients that are there, for its references.
pub record Known : Type 0 where
  pub account : Bytes → Bool
  pub client : Bytes → Bool

unfoldable pub check_row : Reservation → Result StoreError (Unit {0})
check_row row = do
  refuse_if (is_empty row.account_id) missing_field
  check_target row.tunnel_type row

unfoldable pub insert_row :
    Known → Reservation → List Reservation → Result StoreError (List Reservation)
insert_row known row rows = do
  refuse_if (any (collides row) rows) conflict
  refuse_if (not (known.account row.account_id && refers known.client row.client_id)) failed
  ok (row ∷ rows)

-- `fresh_id` is what `utils.GenerateID` returns.
unfoldable pub create_reservation :
    Known → Bytes → ℕ → Reservation → List Reservation → Result StoreError (List Reservation)
create_reservation known fresh_id now r rows = do
  check_row (new_row fresh_id now r)
  insert_row known (new_row fresh_id now r) rows

abbrev pub one_row {ℓ} : {A : Type ℓ} → Option A → Result StoreError A
one_row none = err not_found
one_row (some r) = ok r

unfoldable pub get_reservation : List Reservation → Bytes → Result StoreError Reservation
get_reservation rows id = one_row (find? (has_id id) rows)

unfoldable pub get_reservation_by_subdomain :
    List Reservation → Bytes → Result StoreError Reservation
get_reservation_by_subdomain rows name = one_row (find? (has_subdomain (trimmed name)) rows)

unfoldable pub get_reservation_by_tcp_port : List Reservation → ℕ → Result StoreError Reservation
get_reservation_by_tcp_port rows port = one_row (find? (has_port port) rows)

-- Byte order of two texts.
unfoldable pub text_le : Bytes → Bytes → Bool
text_le [] t = true
text_le (c ∷ s) [] = false
text_le (c ∷ s) (d ∷ t) = ltb c d || (c == d && text_le s t)

-- `ORDER BY created_at, id`.
unfoldable pub is_before : Reservation → Reservation → Bool
unfolding text_le
is_before a b = ltb a.created_at b.created_at || (a.created_at == b.created_at && text_le a.id b.id)

unfoldable pub insert_sorted : Reservation → List Reservation → List Reservation
insert_sorted r [] = r ∷ []
insert_sorted r (q ∷ rows) =
    let rest = r ∷ q ∷ rows in
    let later = q ∷ insert_sorted r rows in if is_before r q then rest else later

unfoldable pub sort_rows : List Reservation → List Reservation
unfolding insert_sorted
sort_rows [] = []
sort_rows (r ∷ rows) = insert_sorted r (sort_rows rows)

-- The enabled reservations of a client in a family, oldest first.
unfoldable pub list_reservations_for_client :
    List Reservation → Bytes → Bytes → Result StoreError (List Reservation)
list_reservations_for_client rows client kind = ok (
    sort_rows (
      select
        (λ r.
          is_bound_to client r.client_id
          && str_eq r.tunnel_type (normalize_tunnel_type kind)
          && r.enabled)
        rows))

abbrev pub updated : ℕ → Reservation → Reservation → Reservation
updated now r row =
    if str_eq row.id r.id
    then record row {
      client_id = null_string r.client_id;
      bandwidth = r.bandwidth;
      enabled = r.enabled;
      updated_at = now;
    }
    else row

-- The client, the bandwidth and the switch of a row are replaced; its target stays.
unfoldable pub update_reservation :
    Known → ℕ → Reservation → List Reservation → Result StoreError (List Reservation)
update_reservation known now r rows = do
  refuse_if (is_empty r.id) missing_field
  refuse_if (any (has_id r.id) rows && not (refers known.client (null_string r.client_id))) failed
  refuse_if (not (any (has_id r.id) rows)) not_found
  ok (map (updated now r) rows)

unfoldable pub delete_reservation : Bytes → List Reservation → Result StoreError (List Reservation)
delete_reservation id rows = do
  refuse_if (not (any (has_id id) rows)) not_found
  ok (select (λ r. not (has_id id r)) rows)

-- What the resolver needs of the store; a fault of the database is `failed`.
pub record ReservationStore : Type 0 where
  pub by_subdomain : Bytes → Result StoreError Reservation
  pub by_tcp_port : ℕ → Result StoreError Reservation
  pub for_client : Bytes → Bytes → Result StoreError (List Reservation)

unfoldable pub table_store : List Reservation → ReservationStore
table_store rows = record {
  by_subdomain = get_reservation_by_subdomain rows;
  by_tcp_port = get_reservation_by_tcp_port rows;
  for_client = list_reservations_for_client rows;
}
