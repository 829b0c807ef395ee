-- ===== src/Store/Admins.antt =====
-- The operators of the panel and their sessions: internal/server/store/admin_users.go and
-- sessions.go, on the tables `admin_users` and `admin_sessions` of schema.go. The moments that calls
-- are given count nanoseconds; what stands in a row counts seconds.
pub mod Integrity
use drip_ex.Base.{
  ltb, leb, ◌==◌, if◌then◌else◌, ==_iff, Bool-cases, and-eq-true, Option-cases, is_some, or_default,
  length, get_or, set, take, drop, replicate, all, any, find?, select, All, length-append,
  length-set, get_or-set_self, get_or-set_ne, take-length_append, drop-length_append, Bytes, codes,
  str_eq, str_eq_iff, str_eq_refl, is_empty, is_empty_ne, ne_is_empty, is_upper, is_digit, is_space,
  lower_byte, upper_byte, to_lower, to_upper, trim_left, trim_space, strip_prefix, contains_byte,
  equal_fold, Map, lookup, insert, delete, lookup-insert, lookup-delete, Distinct, insert-Distinct,
  delete-Distinct, delete_absent, count, count-insert, count-replace, count-delete, tally,
  increment, decrement, tally-increment, tally-decrement, decrement-increment, Result, refuse_if,
  ◌>>=◌, ◌>>◌, >>=-eq-ok, ℤ, pos_part, neg_part, ◌≤ℤ◌, ltb_ℤ, NoClash, select-NoClash, All-map,
  All-weaken, All-select, any-All, All-any, All-both, All-units, any-map, any-select, map-NoClash,
  map-NoClash_pairs, ok, err, pos, negsuc, ℕ, zero, suc, ◌+◌, ◌-◌, ◌*◌, ◌/◌, ◌%◌, ◌^◌, ◌≤◌, ◌<◌,
  min, bit_xor, String, ◌≡◌, refl, sym, ap, subst, ◌∙◌, ◌≢◌, ◌↔◌, ◌⊎◌, inl, inr, Bool, true, false,
  not, ◌&&◌, ◌||◌, Option, none, some, List, [], ◌∷◌, ◌++◌, map, arith, ℕ_discrete,
}
use drip_ex.Store.Reservations.{
  StoreError, missing_field, conflict, not_found, failed, unknown_role, trimmed, one_row,
}

abbrev pub role_admin : Bytes
role_admin = codes "admin"

abbrev pub role_viewer : Bytes
role_viewer = codes "viewer"

unfoldable pub valid_role : Bytes → Bool
valid_role role = str_eq role role_admin || str_eq role role_viewer

abbrev pub second : ℕ
second = 1000000000

-- `time.Time.Unix`.
abbrev pub unix : ℕ → ℕ
unix t = t / second

pub record AdminUser : Type 0 where
  pub id : Bytes
  pub username : Bytes
  pub password_hash : Bytes
  pub role : Bytes
  pub enabled : Bool
  -- `none` is NULL.
  pub last_login_at : Option ℕ
  pub created_at : ℕ
  pub updated_at : ℕ

-- `id` is the hash of the session's token.
pub record AdminSession : Type 0 where
  pub id : Bytes
  pub user_id : Bytes
  pub created_at : ℕ
  pub expires_at : ℕ
  pub last_seen_at : ℕ
  pub ip : Bytes
  pub user_agent : Bytes

pub record Admins : Type 0 where
  pub users : List AdminUser
  pub sessions : List AdminSession

abbrev pub no_admins : Admins
no_admins = record { users = []; sessions = [] }

abbrev pub is_user : Bytes → AdminUser → Bool
is_user id u = str_eq u.id id

abbrev pub is_named : Bytes → AdminUser → Bool
is_named username u = str_eq u.username username

abbrev pub is_admin_session : Bytes → AdminSession → Bool
is_admin_session id s = str_eq s.id id

abbrev pub is_session_of : Bytes → AdminSession → Bool
is_session_of user_id s = str_eq s.user_id user_id

-- Two operators share the primary key or the username.
unfoldable pub users_clash : AdminUser → AdminUser → Bool
users_clash u v = str_eq v.id u.id || str_eq v.username u.username

unfoldable pub admin_sessions_clash : AdminSession → AdminSession → Bool
admin_sessions_clash s t = str_eq t.id s.id

-- The row that `CreateAdminUser` inserts; `fresh_id` is what `utils.GenerateID` returns.
unfoldable pub new_user : Bytes → ℕ → AdminUser → AdminUser
new_user fresh_id now u = record u {
  id = if is_empty u.id then fresh_id else u.id;
  username = trimmed u.username;
  role = if is_empty u.role then role_admin else u.role;
  last_login_at = none;
  created_at = unix now;
  updated_at = unix now;
}

unfoldable pub create_admin_user :
    Bytes → ℕ → AdminUser → Admins → Result StoreError (Admins × AdminUser)
create_admin_user fresh_id now u db = do
  refuse_if (is_empty (trimmed u.username)) missing_field
  refuse_if (is_empty u.password_hash) missing_field
  refuse_if (not (valid_role (new_user fresh_id now u).role)) unknown_role
  refuse_if (any (users_clash (new_user fresh_id now u)) db.users) conflict
  ok (record db { users = new_user fresh_id now u ∷ db.users }, new_user fresh_id now u)

unfoldable pub get_admin_user : Admins → Bytes → Result StoreError AdminUser
get_admin_user db id = one_row (find? (is_user id) db.users)

unfoldable pub get_admin_user_by_username : Admins → Bytes → Result StoreError AdminUser
get_admin_user_by_username db username = one_row (find? (is_named (trimmed username)) db.users)

unfoldable pub count_admin_users : Admins → ℕ
count_admin_users db = length db.users

abbrev pub updated_user : ℕ → AdminUser → AdminUser → AdminUser
updated_user now u row =
    if is_user u.id row
    then record row { role = u.role; enabled = u.enabled; updated_at = unix now }
    else row

unfoldable pub update_admin_user : ℕ → AdminUser → Admins → Result StoreError Admins
update_admin_user now u db = do
  refuse_if (is_empty u.id) missing_field
  refuse_if (not (valid_role u.role)) unknown_role
  refuse_if (not (any (is_user u.id) db.users)) not_found
  ok (record db { users = map (updated_user now u) db.users })

abbrev pub with_password : ℕ → Bytes → Bytes → AdminUser → AdminUser
with_password now id password_hash row =
    if is_user id row
    then record row { password_hash = password_hash; updated_at = unix now }
    else row

unfoldable pub set_admin_password : ℕ → Bytes → Bytes → Admins → Result StoreError Admins
set_admin_password now id password_hash db = do
  refuse_if (is_empty password_hash) missing_field
  refuse_if (not (any (is_user id) db.users)) not_found
  ok (record db { users = map (with_password now id password_hash) db.users })

abbrev pub signed_in : ℕ → Bytes → AdminUser → AdminUser
signed_in now id row =
    if is_user id row then record row { last_login_at = some (unix now) } else row

-- An operator who is not there is no error.
unfoldable pub touch_admin_login : ℕ → Bytes → Admins → Admins
touch_admin_login now id db = record db { users = map (signed_in now id) db.users }

-- The operator's sessions go too (`ON DELETE CASCADE`).
unfoldable pub delete_admin_user : Bytes → Admins → Result StoreError Admins
delete_admin_user id db = do
  refuse_if (not (any (is_user id) db.users)) not_found
  ok (record {
    users = select (λ u. not (is_user id u)) db.users;
    sessions = select (λ s. not (is_session_of id s)) db.sessions;
  })

abbrev pub admin_session_row :
    (now : ℕ) → (id user_id : Bytes) → (expires : ℕ) → (ip user_agent : Bytes) → AdminSession
admin_session_row now id user_id expires ip user_agent = record {
  id = id;
  user_id = user_id;
  created_at = unix now;
  expires_at = unix expires;
  last_seen_at = unix now;
  ip = ip;
  user_agent = user_agent;
}

-- `none` is a zero time of expiry. The reference to the operator is checked by the database.
unfoldable pub create_admin_session :
    (now : ℕ)
    → (id user_id : Bytes) → (expires : Option ℕ) → (ip user_agent : Bytes) → Admins
    → Result StoreError Admins
create_admin_session now id user_id none ip user_agent db = err missing_field
create_admin_session now id user_id (some expires) ip user_agent db = do
  refuse_if (is_empty id || is_empty user_id) missing_field
  refuse_if (any (is_admin_session id) db.sessions) failed
  refuse_if (not (any (is_user user_id) db.users)) failed
  ok (record db { sessions = admin_session_row now id user_id expires ip user_agent ∷ db.sessions })

-- `time.Now().After(sess.ExpiresAt)`.
abbrev pub is_expired : ℕ → AdminSession → Bool
is_expired now s = ltb (s.expires_at * second) now

-- A session that has expired is reported as missing.
unfoldable pub get_admin_session : ℕ → Bytes → Admins → Result StoreError AdminSession
get_admin_session now id db = do
  s ← one_row (find? (is_admin_session id) db.sessions)
  refuse_if (is_expired now s) not_found
  ok s

abbrev pub touched : ℕ → Bytes → AdminSession → AdminSession
touched now id s = if is_admin_session id s then record s { last_seen_at = unix now } else s

unfoldable pub touch_admin_session : ℕ → Bytes → Admins → Admins
touch_admin_session now id db = record db { sessions = map (touched now id) db.sessions }

unfoldable pub delete_admin_session : Bytes → Admins → Admins
delete_admin_session id db = record db {
  sessions = select (λ s. not (is_admin_session id s)) db.sessions;
}

unfoldable pub delete_admin_sessions_for_user : Bytes → Admins → Admins
delete_admin_sessions_for_user user_id db = record db {
  sessions = select (λ s. not (is_session_of user_id s)) db.sessions;
}

unfoldable pub purge_expired_admin_sessions : ℕ → Admins → Admins
purge_expired_admin_sessions now db = record db {
  sessions = select (λ s. ltb (unix now) s.expires_at) db.sessions;
}
