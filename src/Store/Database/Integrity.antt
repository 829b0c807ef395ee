-- ===== src/Store/Database/Integrity.antt =====
-- What the unique indexes and the references of internal/server/store/schema.go promise, for every
-- sequence of statements.
use drip_ex.Base.{
  select, All, Bytes, Result, >>=-eq-ok, All-map, All-select, ok, err, ℕ, ◌≡◌, refl, sym, subst,
  inl, true, not, List, [], ◌∷◌, map, arith,
}
use drip_ex.Store.Reservations.{
  Reservation, StoreError, Known, refers, updated, null_string, new_row, check_row, insert_row,
  create_reservation, update_reservation, delete_reservation, has_id,
}
use drip_ex.Store.Reservations.Uniqueness.{
  IsUnique, create-IsUnique, update_delete-IsUnique, created,
}
use drip_ex.Store.Database.{
  Account, Database, known_rows, create_account, touch_client, with_reservations,
}
use drip_ex.Store.Database.Statements.{
  the_database, Statement, insert_account, set_account, remove_account, insert_client, set_client,
  set_secret, remove_client, see_client, insert_reservation, set_reservation, remove_reservation,
  execute, or_unchanged, execute_all,
}
use drip_ex.Store.Database.Consistency.{
  IsBacked, IsConsistent, select-IsUnique, create_account-IsConsistent, update_account-IsConsistent,
  delete_account-IsConsistent, delete_client-IsConsistent, create_client-IsConsistent,
  update_client-IsConsistent, with_secret-IsConsistent, touch_client-IsConsistent,
  change_reservations-IsConsistent,
}

created_backed :
    (known : Known) (row : Reservation) (rows rows' : List Reservation)
    → insert_row known row rows ≡ ok rows'
    → (known.account row.account_id ≡ true) × (refers known.client row.client_id ≡ true)
unfolding insert_row
created_backed known row rows rows' e = (ground arith, ground arith)

module _ (db : Database) (inv : IsConsistent db) where
  create_reservation-IsConsistent :
      (fresh_id : Bytes) (now : ℕ) (r : Reservation) (rows : List Reservation)
      → create_reservation (known_rows db) fresh_id now r db.reservations ≡ ok rows
      → IsConsistent (record db { reservations = rows })
  unfolding create_reservation known_rows
  create_reservation-IsConsistent fresh_id now r rows e =
      let known = known_rows db in
      let (_, _, inserted) = >>=-eq-ok (check_row (new_row fresh_id now r)) _ e in
      let (_, same) = created known fresh_id now r db.reservations rows e in
      let backed = created_backed known (new_row fresh_id now r) db.reservations rows inserted in
      change_reservations-IsConsistent db db inv rows
        (create-IsUnique known fresh_id now r db.reservations rows e inv.reservations)
        (subst (All (IsBacked db.accounts db.clients)) (sym same) (backed, inv.backed))

  update_reservation-IsConsistent :
      (now : ℕ) (r : Reservation) (rows : List Reservation)
      → update_reservation (known_rows db) now r db.reservations ≡ ok rows
      → IsConsistent (record db { reservations = rows })
  unfolding update_reservation known_rows
  update_reservation-IsConsistent now r rows e =
      let known = known_rows db in
      let same : map (updated now r) db.reservations ≡ rows = ground arith in
      let client : refers known.client (null_string r.client_id) ≡ true = ground arith in
      change_reservations-IsConsistent db db inv rows
        (update_delete-IsUnique known now r [] db.reservations rows (inl e) inv.reservations)
        (subst (All (IsBacked db.accounts db.clients)) same (
          All-map _ _ (updated now r) db.reservations (λ q h. (ground arith, ground arith))
            inv.backed))

  delete_reservation-IsConsistent :
      (id : Bytes) (rows : List Reservation)
      → delete_reservation id db.reservations ≡ ok rows
      → IsConsistent (record db { reservations = rows })
  unfolding delete_reservation
  delete_reservation-IsConsistent id rows e =
      let same : select (λ q. not (has_id id q)) db.reservations ≡ rows = ground arith in
      change_reservations-IsConsistent db db inv rows
        (subst IsUnique same (select-IsUnique _ db.reservations inv.reservations))
        (subst (All (IsBacked db.accounts db.clients)) same
          (All-select _ _ _ db.reservations (λ q h k. k) inv.backed))

stored-IsConsistent :
    (db db' : Database) (result : Result StoreError (List Reservation))
    → ((rows : List Reservation)
        → result ≡ ok rows
        → IsConsistent (record db { reservations = rows }))
    → with_reservations db result ≡ ok db'
    → IsConsistent db'
stored-IsConsistent db db' (err reason) keep e = cc
stored-IsConsistent db db' (ok rows) keep e =
    let same : record db { reservations = rows } ≡ db' = cc in
    subst IsConsistent same (keep rows refl)

account-IsConsistent :
    (db' : Database) (result : Result StoreError (Database × Account))
    → ((db : Database) (a : Account) → result ≡ ok (db, a) → IsConsistent db)
    → the_database result ≡ ok db'
    → IsConsistent db'
account-IsConsistent db' (err reason) keep e = cc
account-IsConsistent db' (ok (db, a)) keep e =
    let same : db ≡ db' = cc in subst IsConsistent same (keep db a refl)

execute-IsConsistent :
    (s : Statement) (db db' : Database) → IsConsistent db → execute s db ≡ ok db' → IsConsistent db'
unfolding execute
execute-IsConsistent (insert_account fresh_id now name max_tunnels) db db' inv e =
    account-IsConsistent db' (create_account fresh_id now name max_tunnels db)
      (λ mid a h. create_account-IsConsistent db mid inv fresh_id now name max_tunnels a h) e
execute-IsConsistent (set_account now a) db db' inv e =
    update_account-IsConsistent db db' inv now a e
execute-IsConsistent (remove_account id) db db' inv e = delete_account-IsConsistent db db' inv id e
execute-IsConsistent (insert_client now c) db db' inv e =
    create_client-IsConsistent db db' inv now c e
execute-IsConsistent (set_client now c) db db' inv e = update_client-IsConsistent db db' inv now c e
execute-IsConsistent (set_secret now id secret_hash) db db' inv e =
    with_secret-IsConsistent db db' inv now id secret_hash e
execute-IsConsistent (remove_client id) db db' inv e = delete_client-IsConsistent db db' inv id e
execute-IsConsistent (see_client now id remote_ip) db db' inv e =
    let same : touch_client now id remote_ip db ≡ db' = cc in
    subst IsConsistent same (touch_client-IsConsistent db db inv now id remote_ip)
execute-IsConsistent (insert_reservation fresh_id now r) db db' inv e =
    stored-IsConsistent db db' _ (create_reservation-IsConsistent db inv fresh_id now r) e
execute-IsConsistent (set_reservation now r) db db' inv e =
    stored-IsConsistent db db' _ (update_reservation-IsConsistent db inv now r) e
execute-IsConsistent (remove_reservation id) db db' inv e =
    stored-IsConsistent db db' _ (delete_reservation-IsConsistent db inv id) e

next-IsConsistent :
    (s : Statement) (db : Database) (result : Result StoreError Database)
    → execute s db ≡ result
    → IsConsistent db
    → IsConsistent (or_unchanged db result)
next-IsConsistent s db (err reason) e inv = inv
next-IsConsistent s db (ok db') e inv = execute-IsConsistent s db db' inv e

-- Whatever statements run on a consistent database, those that fail included: afterwards no two
-- accounts share an id or a name, no two clients an id or a name within an account, no two
-- reservations an id, a subdomain or a port; each client's account exists, as do each
-- reservation's account and the client it is bound to; and no limit on tunnels is negative.
pub execute_all-IsConsistent :
    (statements : List Statement) (db : Database)
    → IsConsistent db
    → IsConsistent (execute_all statements db)
unfolding execute_all
execute_all-IsConsistent [] db inv = inv
execute_all-IsConsistent (s ∷ rest) db inv =
    execute_all-IsConsistent rest (or_unchanged db (execute s db))
      (next-IsConsistent s db (execute s db) refl inv)
