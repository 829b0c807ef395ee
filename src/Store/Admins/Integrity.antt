-- ===== src/Store/Admins/Integrity.antt =====
-- What the indexes and the reference of the panel's tables promise, for every sequence of calls of
-- internal/server/store/admin_users.go and sessions.go.
use drip_ex.Base.{
  any, select, All, Bytes, str_eq_iff, Result, NoClash, select-NoClash, All-map, All-weaken,
  All-select, All-units, any-map, any-select, map-NoClash, ok, err, ℕ, ◌≡◌, refl, subst, ◌∙◌, Bool,
  true, false, not, Option, none, some, List, [], ◌∷◌, map, arith,
}
use drip_ex.Store.Reservations.{StoreError}
use drip_ex.Store.Admins.{
  AdminUser, AdminSession, Admins, is_user, is_admin_session, is_session_of, users_clash,
  admin_sessions_clash, valid_role, new_user, create_admin_user, updated_user, update_admin_user,
  with_password, set_admin_password, signed_in, touch_admin_login, delete_admin_user,
  create_admin_session, admin_session_row, touched, touch_admin_session, delete_admin_session,
  delete_admin_sessions_for_user, purge_expired_admin_sessions,
}

-- The calls that write.
pub data Write : Type 0 where
  insert_user : (fresh_id : Bytes) → (now : ℕ) → AdminUser → Write
  set_user : (now : ℕ) → AdminUser → Write
  set_password : (now : ℕ) → (id password_hash : Bytes) → Write
  see_login : (now : ℕ) → (id : Bytes) → Write
  remove_user : (id : Bytes) → Write
  insert_session :
      (now : ℕ) → (id user_id : Bytes) → (expires : Option ℕ) → (ip user_agent : Bytes) → Write
  see_session : (now : ℕ) → (id : Bytes) → Write
  remove_session remove_sessions_of : (id : Bytes) → Write
  purge_sessions_at : (now : ℕ) → Write

abbrev pub the_admins : Admins → Result StoreError (Admins × AdminUser) → Admins
the_admins db (err e) = db
the_admins db (ok (db', u)) = db'

abbrev pub or_same : Admins → Result StoreError Admins → Admins
or_same db (err e) = db
or_same db (ok db') = db'

-- A call that fails leaves the tables as they are.
unfoldable pub write : Write → Admins → Admins
write (insert_user fresh_id now u) db = the_admins db (create_admin_user fresh_id now u db)
write (set_user now u) db = or_same db (update_admin_user now u db)
write (set_password now id password_hash) db =
    or_same db (set_admin_password now id password_hash db)
write (see_login now id) db = touch_admin_login now id db
write (remove_user id) db = or_same db (delete_admin_user id db)
write (insert_session now id user_id expires ip user_agent) db =
    or_same db (create_admin_session now id user_id expires ip user_agent db)
write (see_session now id) db = touch_admin_session now id db
write (remove_session id) db = delete_admin_session id db
write (remove_sessions_of id) db = delete_admin_sessions_for_user id db
write (purge_sessions_at now) db = purge_expired_admin_sessions now db

unfoldable pub write_all : List Write → Admins → Admins
write_all [] db = db
write_all (w ∷ rest) db = write_all rest (write w db)

-- No two operators share an id or a username, each has a role that the panel knows, no two sessions
-- share a token's hash, and each session is of an operator who is there.
pub record IsSound (db : Admins) : Type 0 where
  pub users : NoClash users_clash db.users
  pub roles : All (λ u. valid_role u.role ≡ true) db.users
  pub sessions : NoClash admin_sessions_clash db.sessions
  pub holders : All (λ s. any (is_user s.user_id) db.users ≡ true) db.sessions

-- A change of operators that keeps their keys, and leaves them roles that the panel knows.
map-IsSound :
    (f : AdminUser → AdminUser) (db : Admins)
    → ((u : AdminUser) → (f u).id ≡ u.id)
    → ((u : AdminUser) → (f u).username ≡ u.username)
    → ((u : AdminUser) → valid_role u.role ≡ true → valid_role (f u).role ≡ true)
    → IsSound db
    → IsSound (record db { users = map f db.users })
unfolding users_clash
map-IsSound f db ids names roles inv = record {
  users =
      map-NoClash (λ u. Unit {0}) users_clash f db.users
        (λ u v p q h. rw (ids u, ids v, names u, names v) h) (All-units db.users) inv.users;
  roles = All-map _ _ f db.users roles inv.roles;
  sessions = inv.sessions;
  holders =
      All-weaken _ _ db.sessions
        (λ s h. any-map (is_user s.user_id) f db.users (λ u. rw (ids u) refl) ∙ h) inv.holders;
}

select_sessions-IsSound :
    (p : AdminSession → Bool) (db : Admins)
    → IsSound db
    → IsSound (record db { sessions = select p db.sessions })
select_sessions-IsSound p db inv = record {
  users = inv.users;
  roles = inv.roles;
  sessions = select-NoClash admin_sessions_clash p db.sessions inv.sessions;
  holders = All-select _ _ p db.sessions (λ s e h. h) inv.holders;
}

module _ (db db' : Admins) (inv : IsSound db) where
  create_user-IsSound :
      (fresh_id : Bytes) (now : ℕ) (u v : AdminUser)
      → create_admin_user fresh_id now u db ≡ ok (db', v)
      → IsSound db'
  unfolding create_admin_user
  create_user-IsSound fresh_id now u v e =
      let row = new_user fresh_id now u in
      let free : any (users_clash row) db.users ≡ false = ground arith in
      let role : valid_role row.role ≡ true = ground arith in
      let same : record db { users = row ∷ db.users } ≡ db' = ground arith in
      subst IsSound same (record {
        users = (free, inv.users);
        roles = (role, inv.roles);
        sessions = inv.sessions;
        holders = All-weaken _ _ db.sessions (λ s h. ground arith) inv.holders;
      })

  update_user-IsSound :
      (now : ℕ) (u : AdminUser) → update_admin_user now u db ≡ ok db' → IsSound db'
  unfolding update_admin_user
  update_user-IsSound now u e =
      let role : valid_role u.role ≡ true = ground arith in
      let same : record db { users = map (updated_user now u) db.users } ≡ db' = ground arith in
      subst IsSound same (
        map-IsSound (updated_user now u) db (λ v. ground arith) (λ v. ground arith)
          (λ v h. ground arith) inv)

  set_password-IsSound :
      (now : ℕ) (id password_hash : Bytes)
      → set_admin_password now id password_hash db ≡ ok db'
      → IsSound db'
  unfolding set_admin_password
  set_password-IsSound now id password_hash e =
      let same : record db { users = map (with_password now id password_hash) db.users } ≡ db' =
        ground arith in
      subst IsSound same (
        map-IsSound (with_password now id password_hash) db (λ v. ground arith) (λ v. ground arith)
          (λ v h. ground arith) inv)

  delete_user-IsSound : (id : Bytes) → delete_admin_user id db ≡ ok db' → IsSound db'
  unfolding delete_admin_user
  delete_user-IsSound id e =
      let left : Admins = record {
        users = select (λ u. not (is_user id u)) db.users;
        sessions = select (λ s. not (is_session_of id s)) db.sessions;
      } in
      let same : left ≡ db' = ground arith in
      subst IsSound same (record {
        users = select-NoClash users_clash _ db.users inv.users;
        roles = All-select _ _ _ db.users (λ u p h. h) inv.roles;
        sessions = select-NoClash admin_sessions_clash _ db.sessions inv.sessions;
        holders =
            All-select _ _ _ db.sessions
              (λ s p h.
                any-select (is_user s.user_id) (λ u. not (is_user id u)) db.users
                  (λ u here.
                    ground (
                      arith,
                      str_eq_iff u.id s.user_id,
                      str_eq_iff u.id id,
                      str_eq_iff s.user_id id,
                    ))
                ∙ h)
              inv.holders;
      })

  create_session-IsSound :
      (now : ℕ) (id user_id : Bytes) (expires : Option ℕ) (ip user_agent : Bytes)
      → create_admin_session now id user_id expires ip user_agent db ≡ ok db'
      → IsSound db'
  unfolding create_admin_session admin_sessions_clash
  create_session-IsSound now id user_id none ip user_agent e = cc
  create_session-IsSound now id user_id (some expires) ip user_agent e =
      let free : any (is_admin_session id) db.sessions ≡ false = ground arith in
      let there : any (is_user user_id) db.users ≡ true = ground arith in
      let row = admin_session_row now id user_id expires ip user_agent in
      let same : record db { sessions = row ∷ db.sessions } ≡ db' = ground arith in
      subst IsSound same (record {
        users = inv.users;
        roles = inv.roles;
        sessions = (free, inv.sessions);
        holders = (there, inv.holders);
      })

touch_session-IsSound :
    (now : ℕ) (id : Bytes) (db : Admins) → IsSound db → IsSound (touch_admin_session now id db)
unfolding touch_admin_session admin_sessions_clash
touch_session-IsSound now id db inv = record {
  users = inv.users;
  roles = inv.roles;
  sessions =
      map-NoClash (λ s. Unit {0}) admin_sessions_clash (touched now id) db.sessions
        (λ s t p q h. ground arith) (All-units db.sessions) inv.sessions;
  holders = All-map _ _ (touched now id) db.sessions (λ s h. ground arith) inv.holders;
}

or_same-IsSound :
    (db : Admins) (out : Result StoreError Admins)
    → IsSound db
    → ((db' : Admins) → out ≡ ok db' → IsSound db')
    → IsSound (or_same db out)
or_same-IsSound db (err e) inv step = inv
or_same-IsSound db (ok db') inv step = step db' refl

the_admins-IsSound :
    (db : Admins) (out : Result StoreError (Admins × AdminUser))
    → IsSound db
    → ((db' : Admins) (u : AdminUser) → out ≡ ok (db', u) → IsSound db')
    → IsSound (the_admins db out)
the_admins-IsSound db (err e) inv step = inv
the_admins-IsSound db (ok (db', u)) inv step = step db' u refl

pub write-IsSound : (w : Write) (db : Admins) → IsSound db → IsSound (write w db)
unfolding write touch_admin_login delete_admin_session delete_admin_sessions_for_user
    purge_expired_admin_sessions
write-IsSound (insert_user fresh_id now u) db inv =
    the_admins-IsSound db _ inv (λ db' v. create_user-IsSound db db' inv fresh_id now u v)
write-IsSound (set_user now u) db inv =
    or_same-IsSound db _ inv (λ db'. update_user-IsSound db db' inv now u)
write-IsSound (set_password now id password_hash) db inv =
    or_same-IsSound db _ inv (λ db'. set_password-IsSound db db' inv now id password_hash)
write-IsSound (see_login now id) db inv =
    map-IsSound (signed_in now id) db (λ v. ground arith) (λ v. ground arith) (λ v h. ground arith)
      inv
write-IsSound (remove_user id) db inv =
    or_same-IsSound db _ inv (λ db'. delete_user-IsSound db db' inv id)
write-IsSound (insert_session now id user_id expires ip user_agent) db inv =
    or_same-IsSound db _ inv
      (λ db'. create_session-IsSound db db' inv now id user_id expires ip user_agent)
write-IsSound (see_session now id) db inv = touch_session-IsSound now id db inv
write-IsSound (remove_session id) db inv = select_sessions-IsSound _ db inv
write-IsSound (remove_sessions_of id) db inv = select_sessions-IsSound _ db inv
write-IsSound (purge_sessions_at now) db inv = select_sessions-IsSound _ db inv

-- Whatever calls are made, each with any outcome, sound tables stay sound: the operators keep
-- distinct ids and usernames and roles that the panel knows, the sessions keep distinct hashes, and
-- no session outlives its operator.
pub write_all-IsSound :
    (calls : List Write) (db : Admins) → IsSound db → IsSound (write_all calls db)
unfolding write_all
write_all-IsSound [] db inv = inv
write_all-IsSound (w ∷ rest) db inv = write_all-IsSound rest (write w db) (write-IsSound w db inv)
