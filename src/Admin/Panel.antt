-- ===== src/Admin/Panel.antt =====
-- Signing in to the panel and out of it: internal/server/admin/session.go, api_session.go and the
-- guards of server.go. Moments are in nanoseconds; bodies are decoded; `Crypto` and the hash of a
-- token are parameters. The entries of the audit log are left out.
pub mod History
pub mod Opened
pub mod Issued
pub mod Signing
use drip_ex.Base.{
  ltb, leb, ◌==◌, if◌then◌else◌, ==_iff, Bool-cases, and-eq-true, Option-cases, is_some, or_default,
  if_cases, length, get_or, set, take, drop, replicate, all, any, find?, select, All, length-append,
  length-set, get_or-set_self, get_or-set_ne, take-length_append, drop-length_append, Bytes, codes,
  str_eq, str_eq_iff, str_eq_refl, is_empty, is_empty_ne, ne_is_empty, is_upper, is_digit, is_space,
  lower_byte, upper_byte, to_lower, to_upper, trim_left, trim_space, strip_prefix, contains_byte,
  equal_fold, is_bracket, drop_brackets, trim_brackets, Map, lookup, insert, delete, lookup-insert,
  lookup-delete, Distinct, insert-Distinct, delete-Distinct, delete_absent, count, count-insert,
  count-replace, count-delete, tally, increment, decrement, tally-increment, tally-decrement,
  decrement-increment, Result, refuse_if, ◌>>=◌, ◌>>◌, >>=-eq-ok, ℤ, pos_part, neg_part, ◌≤ℤ◌,
  ltb_ℤ, NoClash, select-NoClash, All-map, All-weaken, All-select, any-All, All-any, All-both,
  All-units, any-map, any-select, map-NoClash, map-NoClash_pairs, find-All, find-select_kept,
  find-select_gone, find-map, find-NoClash, ok, err, pos, negsuc, ℕ, zero, suc, ◌+◌, ◌-◌, ◌*◌, ◌/◌,
  ◌%◌, ◌^◌, ◌≤◌, ◌<◌, min, bit_xor, String, ◌≡◌, refl, sym, ap, subst, ◌∙◌, ◌≢◌, ◌↔◌, ◌⊎◌, inl, inr,
  Bool, true, false, not, ◌&&◌, ◌||◌, Option, none, some, List, [], ◌∷◌, ◌++◌, map, arith,
  ℕ_discrete,
}
use drip_ex.Store.Reservations.{StoreError, not_found, conflict, trimmed}
use drip_ex.Store.Database.{Database, Account, create_account}
use drip_ex.Store.Admins.{
  Admins, AdminUser, AdminSession, unix, role_admin, create_admin_user, get_admin_user,
  get_admin_user_by_username, count_admin_users, touch_admin_login, create_admin_session,
  get_admin_session, delete_admin_session, purge_expired_admin_sessions,
}
use drip_ex.Auth.Passwords.{Crypto, hash_password, verify_password}
use drip_ex.Admin.LoginLimiter.{LoginLimiter, allow, fail, succeed, purge}

-- What the handlers read of a request; `none` is a cookie that is not there.
pub record PanelRequest : Type 0 where
  pub method : Bytes
  pub remote_addr : Bytes
  pub user_agent : Bytes
  pub host : Bytes
  pub over_tls : Bool
  pub session_cookie : Option Bytes
  pub csrf_cookie : Option Bytes
  pub csrf_header : Bytes

pub record Panel : Type 0 where
  pub admins : Admins
  pub database : Database
  pub limiter : LoginLimiter
  pub session_ttl : ℕ
  pub secure_cookies : Bool
  pub public_mount : Bool
  -- The latch of `hasAdministrator`.
  pub bootstrapped : Bool

-- The pair of cookies that a session sets.
pub record Cookies : Type 0 where
  pub session : Bytes
  pub csrf : Bytes
  pub expires : ℕ
  pub secure : Bool

-- The status of a refusal, or what the reply shows.
abbrev pub Reply : Type 0 → Type 0
Reply A = Result ℕ A

abbrev pub unauthorized : ℕ
unauthorized = 401

abbrev pub forbidden : ℕ
forbidden = 403

abbrev pub too_many_requests : ℕ
too_many_requests = 429

abbrev pub internal_error : ℕ
internal_error = 500

abbrev pub status_conflict : ℕ
status_conflict = 409

abbrev pub bad_request : ℕ
bad_request = 400

abbrev pub unavailable : ℕ
unavailable = 503

unfoldable pub store_status : StoreError → ℕ
store_status not_found = 404
store_status conflict = status_conflict
store_status other = bad_request

abbrev before_last_colon : Bytes → Option Bytes → Option Bytes
before_last_colon [] rest = none
before_last_colon (c ∷ s) (some before) = some (c ∷ before)
before_last_colon (c ∷ s) none = if c == b':' then some [] else none

-- `addr[:strings.LastIndex(addr, ":")]`; `none` means that there is no colon.
unfoldable pub cut_port : Bytes → Option Bytes
cut_port [] = none
cut_port (c ∷ s) = before_last_colon (c ∷ s) (cut_port s)

-- A colon at the very front does not count.
abbrev without_port : Bytes → Option Bytes → Bytes
without_port addr none = addr
without_port addr (some []) = addr
without_port addr (some (c ∷ s)) = c ∷ s

unfoldable pub client_ip : Bytes → Bytes
unfolding cut_port trim_brackets
client_ip addr = trim_brackets (without_port addr (cut_port addr))

abbrev pub user_key : Bytes → Bytes
user_key username = codes "user:" ++ username

unfoldable pub is_mutating : Bytes → Bool
is_mutating method =
    not (
      str_eq method (codes "GET")
      || str_eq method (codes "HEAD")
      || str_eq method (codes "OPTIONS"))

unfoldable pub check_csrf : PanelRequest → Result ℕ (Unit {0})
check_csrf rq = do
  refuse_if (is_empty (or_default [] rq.csrf_cookie)) forbidden
  refuse_if (is_empty rq.csrf_header) forbidden
  refuse_if (not (str_eq (or_default [] rq.csrf_cookie) rq.csrf_header)) forbidden
  ok tt

-- Fails both keys of an attempt.
unfoldable pub fail_login : ℕ → Bytes → Bytes → LoginLimiter → LoginLimiter
fail_login now ip username l = fail now (user_key username) (fail now ip l)

-- `LoopbackHost` rests on package net and is a parameter.
unfoldable pub secure_cookie_for : (Bytes → Bool) → PanelRequest → Panel → Bool
secure_cookie_for loopback rq p =
    if p.secure_cookies || rq.over_tls then true else p.public_mount && not (loopback rq.host)

abbrev pub or_status : {A : Type 0} → ℕ → Result StoreError A → Reply A
or_status status (err e) = err status
or_status status (ok a) = ok a

-- `errNoSession` and the other errors of the store alike end as "not signed in".
abbrev pub no_session : {A : Type 0} → Result StoreError A → Reply A
no_session r = or_status unauthorized r

-- A malformed hash is a plain failure.
unfoldable pub password_matches : Crypto → Bytes → Bytes → Bool
password_matches crypto password hash = or_default false (verify_password crypto password hash)

abbrev pub rejected : ℕ → PanelRequest → Bytes → Panel → Panel × Reply (AdminUser × Cookies)
rejected now rq username p = (
  record p { limiter = fail_login now (client_ip rq.remote_addr) username p.limiter },
  err unauthorized,
)

abbrev pub with_account : Result StoreError (Database × Account) → Database → Database
with_account (err e) db = db
with_account (ok (db', a)) db = db'

abbrev pub first_user : Bytes → Bytes → AdminUser
first_user name hash = record {
  id = [];
  username = trimmed name;
  password_hash = hash;
  role = role_admin;
  enabled = true;
  last_login_at = none;
  created_at = 0;
  updated_at = 0;
}

abbrev pub after_issue :
    ℕ → AdminUser → Panel → Reply (Panel × Cookies) → Panel × Reply (AdminUser × Cookies)
after_issue now user p (err status) = (p, err status)
after_issue now user p (ok (p', cookies)) =
    (record p' { admins = touch_admin_login now user.id p'.admins }, ok (user, cookies))

abbrev pub first_issue :
    AdminUser → Panel → Reply (Panel × Cookies) → Panel × Reply (AdminUser × Cookies)
first_issue user p (err status) = (p, err status)
first_issue user p (ok (p', cookies)) = (p', ok (user, cookies))

abbrev pub if_passed : Panel → Panel → Reply AdminUser → Panel × Reply (Unit {0})
if_passed before after (err status) = (before, err status)
if_passed before after (ok user) = (after, ok tt)

-- The first operator's deployment, with its default account where that can be made.
abbrev pub founded : ℕ → Bytes → Admins → Panel → Panel
founded now account_id admins p = record p {
  admins = admins;
  database =
      with_account (create_account account_id (unix now) (codes "default") (pos 0) p.database)
        p.database;
}

-- `none` stands for a deletion that fails.
abbrev pub without_session : Panel → Option Admins → Panel
without_session p none = p
without_session p (some admins) = record p { admins = admins }

module _ (hash_token : Bytes → Bytes) (loopback : Bytes → Bool) where
  -- `draw` holds the random token and the CSRF token; `none` is an error of `randomToken`.
  unfoldable pub issue_session :
      ℕ → Option (Bytes × Bytes) → PanelRequest → AdminUser → Panel → Reply (Panel × Cookies)
  issue_session now none rq user p = err internal_error
  issue_session now (some (token, csrf)) rq user p = do
    admins ← or_status internal_error (
        create_admin_session now (hash_token token) user.id (some (now + p.session_ttl))
          (client_ip rq.remote_addr) (take 256 rq.user_agent) p.admins)
    ok (
      record p { admins = admins },
      record {
        session = token;
        csrf = csrf;
        expires = now + p.session_ttl;
        secure = secure_cookie_for loopback rq p;
      },
    )

  -- Each path that does not lead to an enabled operator is an error.
  unfoldable pub current_user : ℕ → PanelRequest → Panel → Reply (AdminUser × AdminSession)
  current_user now rq p = do
    refuse_if (is_empty (or_default [] rq.session_cookie)) unauthorized
    s ← no_session (get_admin_session now (hash_token (or_default [] rq.session_cookie)) p.admins)
    u ← no_session (get_admin_user p.admins s.user_id)
    refuse_if (not u.enabled) unauthorized
    ok (u, s)

  -- What the wrapper `authed` lets through, with the operator that it attaches.
  unfoldable pub authed : ℕ → PanelRequest → Panel → Reply AdminUser
  authed now rq p = do
    found ← current_user now rq p
    passed ← (if is_mutating rq.method then check_csrf rq else ok tt)
    ok found.0

  unfoldable pub admin_only : ℕ → PanelRequest → Panel → Reply AdminUser
  admin_only now rq p = do
    u ← authed now rq p
    refuse_if (not (str_eq u.role role_admin)) forbidden
    ok u

  -- The sign-in of an operator who has shown the password.
  unfoldable pub welcome :
      ℕ
      → Option (Bytes × Bytes)
      → PanelRequest
      → Bytes
      → AdminUser
      → Panel
      → Panel × Reply (AdminUser × Cookies)
  welcome now draw rq username user p =
      let cleared = record p {
        limiter = succeed (user_key username) (succeed (client_ip rq.remote_addr) p.limiter);
      } in
      after_issue now user cleared (issue_session now draw rq user cleared)

  module _ (crypto : Crypto) where
    abbrev pub sign_in :
        ℕ
        → Option (Bytes × Bytes)
        → PanelRequest
        → Bytes
        → Bytes
        → Panel
        → Result StoreError AdminUser
        → Panel × Reply (AdminUser × Cookies)
    sign_in now draw rq username password p (err e) = rejected now rq username p
    sign_in now draw rq username password p (ok user) =
        if not (password_matches crypto password user.password_hash)
        then rejected now rq username p
        else if not user.enabled
        then rejected now rq username p
        else welcome now draw rq username user p

    unfoldable pub handle_login :
        ℕ
        → Option (Bytes × Bytes)
        → PanelRequest
        → (name password : Bytes) → Panel
        → Panel × Reply (AdminUser × Cookies)
    handle_login now draw rq name password p =
        let username = trimmed name in
        if not (allow now (client_ip rq.remote_addr) p.limiter)
          || not (allow now (user_key username) p.limiter)
        then (p, err too_many_requests)
        else sign_in now draw rq username password p (get_admin_user_by_username p.admins username)

    abbrev pub found_deployment :
        ℕ
        → Bytes
        → Option (Bytes × Bytes)
        → PanelRequest
        → Panel
        → Result StoreError (Admins × AdminUser)
        → Panel × Reply (AdminUser × Cookies)
    found_deployment now account_id draw rq p (err e) = (p, err (store_status e))
    found_deployment now account_id draw rq p (ok (admins, user)) =
        let deployed = founded now account_id admins p in
        first_issue user deployed (issue_session now draw rq user deployed)

    abbrev pub hashed_or_failed :
        ℕ
        → (fresh_id account_id : Bytes) → Option (Bytes × Bytes)
        → PanelRequest
        → Bytes
        → Panel
        → Option Bytes
        → Panel × Reply (AdminUser × Cookies)
    hashed_or_failed now fresh_id account_id draw rq name p none = (p, err internal_error)
    hashed_or_failed now fresh_id account_id draw rq name p (some hash) =
        found_deployment now account_id draw rq p
          (create_admin_user fresh_id now (first_user name hash) p.admins)

    -- `runes` is `utf8.RuneCountInString`; the ids are drawn by the store.
    unfoldable pub handle_bootstrap :
        (Bytes → ℕ)
        → ℕ
        → (fresh_id account_id salt : Bytes) → Option (Bytes × Bytes)
        → PanelRequest
        → (name password : Bytes) → Panel
        → Panel × Reply (AdminUser × Cookies)
    handle_bootstrap runes now fresh_id account_id salt draw rq name password p =
        if ltb 0 (count_admin_users p.admins)
        then (p, err status_conflict)
        else if ltb (runes password) 12
        then (p, err bad_request)
        else hashed_or_failed now fresh_id account_id draw rq name p
            (hash_password crypto salt password)

  -- The store runs the deletion, or fails, which is only logged.
  abbrev pub signed_out : (runs : Bool) → PanelRequest → Panel → Panel
  signed_out runs rq p =
      if is_empty (or_default [] rq.session_cookie)
      then p
      else without_session p (
          if runs
          then some (delete_admin_session (hash_token (or_default [] rq.session_cookie)) p.admins)
          else none)

  -- The route `DELETE /api/session`, behind `authed`.
  unfoldable pub handle_logout : ℕ → (runs : Bool) → PanelRequest → Panel → Panel × Reply (Unit {0})
  handle_logout now runs rq p = if_passed p (signed_out runs rq p) (authed now rq p)

-- The answer of `hasAdministrator`, and the panel with its latch.
unfoldable pub has_administrator : Panel → Panel × Bool
has_administrator p =
    if p.bootstrapped
    then (p, true)
    else if count_admin_users p.admins == 0
    then (p, false)
    else (record p { bootstrapped = true }, true)

-- What `PublicHandler` lets through to the routes; `bootstraps` tells `POST /api/bootstrap`.
unfoldable pub public_gate : Bool → Panel → Panel × Reply (Unit {0})
public_gate bootstraps p =
    let (p', ready) = has_administrator p in
    if not ready
    then (p', err unavailable)
    else if bootstraps
    then (p', err forbidden)
    else (p', ok tt)

-- One tick of `purgeLoop`.
unfoldable pub sweep : ℕ → Panel → Panel
sweep now p = record p {
  admins = purge_expired_admin_sessions now p.admins;
  limiter = purge now p.limiter;
}
