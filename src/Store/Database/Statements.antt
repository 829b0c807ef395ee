-- ===== src/Store/Database/Statements.antt =====
-- The calls of internal/server/store that write to the database, as data: a call that fails leaves
-- the database as it is.
use drip_ex.Base.{Bytes, Result, ok, err, ℤ, ℕ, List, [], ◌∷◌}
use drip_ex.Store.Reservations.{
  Reservation, StoreError, create_reservation, update_reservation, delete_reservation,
}
use drip_ex.Store.Database.{
  Account, Client, Database, known_rows, create_account, update_account, delete_account,
  create_client, update_client, rotate_client_secret, delete_client, touch_client,
  with_reservations,
}

pub data Statement : Type 0 where
  insert_account : (fresh_id : Bytes) → (now : ℕ) → (name : Bytes) → (max_tunnels : ℤ) → Statement
  set_account : ℕ → Account → Statement
  remove_account : Bytes → Statement
  insert_client set_client : ℕ → Client → Statement
  set_secret : (now : ℕ) → (id secret_hash : Bytes) → Statement
  remove_client : Bytes → Statement
  see_client : (now : ℕ) → (id remote_ip : Bytes) → Statement
  insert_reservation : (fresh_id : Bytes) → ℕ → Reservation → Statement
  set_reservation : ℕ → Reservation → Statement
  remove_reservation : Bytes → Statement

abbrev pub the_database : Result StoreError (Database × Account) → Result StoreError Database
the_database (err e) = err e
the_database (ok (db, a)) = ok db

unfoldable pub execute : Statement → Database → Result StoreError Database
execute (insert_account fresh_id now name max_tunnels) db =
    the_database (create_account fresh_id now name max_tunnels db)
execute (set_account now a) db = update_account now a db
execute (remove_account id) db = delete_account id db
execute (insert_client now c) db = create_client now c db
execute (set_client now c) db = update_client now c db
execute (set_secret now id secret_hash) db = rotate_client_secret now id secret_hash db
execute (remove_client id) db = delete_client id db
execute (see_client now id remote_ip) db = ok (touch_client now id remote_ip db)
execute (insert_reservation fresh_id now r) db =
    with_reservations db (create_reservation (known_rows db) fresh_id now r db.reservations)
execute (set_reservation now r) db =
    with_reservations db (update_reservation (known_rows db) now r db.reservations)
execute (remove_reservation id) db = with_reservations db (delete_reservation id db.reservations)

abbrev pub or_unchanged : Database → Result StoreError Database → Database
or_unchanged db (err e) = db
or_unchanged db (ok db') = db'

unfoldable pub execute_all : List Statement → Database → Database
execute_all [] db = db
execute_all (s ∷ rest) db = execute_all rest (or_unchanged db (execute s db))
