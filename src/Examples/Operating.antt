-- ===== src/Examples/Operating.antt =====
-- Signing in to the panel at concrete inputs.
use drip_ex.Base.{
  ◌&&◌, if◌then◌else◌, or_default, length, Bytes, codes, str_eq, is_empty, to_lower, trim_space,
  contains_byte, trim_brackets, lookup, delete, ok, err, pos, ℕ, zero, suc, ◌+◌, ◌-◌, ◌*◌, ◌/◌, ◌≤◌,
  ◌≡◌, refl, ap, Bool, true, false, Option, none, some, [], ◌∷◌, ◌++◌, arith,
}
use drip_ex.Store.Admins.{
  Admins, AdminUser, AdminSession, role_admin, no_admins, valid_role, new_user, create_admin_user,
  get_admin_user_by_username, get_admin_user, get_admin_session, count_admin_users,
  create_admin_session, touch_admin_login, admin_session_row,
}
use drip_ex.Store.Admins.Integrity.{
  IsSound, insert_user, remove_user, insert_session, write_all, write_all-IsSound,
}
use drip_ex.Store.Database.{empty_database, create_account}
use drip_ex.Auth.Passwords.{
  Crypto, dollar, derived_key, split_on, hash_password, verify_parts, verify_password,
}
use drip_ex.Auth.Passwords.Hashing.{IsFaithful, verify-hash_password}
use drip_ex.Admin.LoginLimiter.{allow, succeed}
use drip_ex.Admin.Panel.{
  PanelRequest, Panel, Cookies, client_ip, cut_port, is_mutating, check_csrf, secure_cookie_for,
  password_matches, issue_session, current_user, authed, welcome, handle_login, handle_bootstrap,
  handle_logout, public_gate,
}
use drip_ex.Admin.Panel.History.{Event, bootstraps, step, panel_after, IsGranted}
use drip_ex.Admin.Panel.Issued.{current_user-IsGranted}
use drip_ex.Admin.Panel.Signing.{
  current_user-handle_login, current_user-handle_logout, handle_bootstrap_once,
}

pad : ℕ → Bytes → Bytes
pad zero s = []
pad (suc n) [] = 0 ∷ pad n []
pad (suc n) (c ∷ s) = c ∷ pad n s

length-pad : (n : ℕ) (s : Bytes) → length (pad n s) ≡ n
unfolding pad
length-pad zero s = refl
length-pad (suc n) [] = ap suc (length-pad n [])
length-pad (suc n) (c ∷ s) = ap suc (length-pad n s)

abbrev shifted : Bytes → Bytes
shifted [] = []
shifted (c ∷ s) = (c + 37) ∷ shifted s

abbrev unshifted : Bytes → Bytes
unshifted [] = []
unshifted (c ∷ s) = (c - 37) ∷ unshifted s

unshifted-shifted : (s : Bytes) → unshifted (shifted s) ≡ s
unshifted-shifted [] = refl
unshifted-shifted (c ∷ s) = ground (arith, unshifted-shifted s)

shifted_plain : (s : Bytes) → contains_byte dollar (shifted s) ≡ false
unfolding contains_byte
shifted_plain [] = refl
shifted_plain (c ∷ s) = ground (arith, shifted_plain s)

abbrev toy : Crypto
toy = record {
  id_key = λ password salt time memory threads n. pad n (password ++ salt);
  encode = shifted;
  decode = λ s. some (unshifted s);
  scan_version = λ s. some (pos 19);
  scan_costs = λ s. some (65536, 3, 4);
}

toy-IsFaithful : IsFaithful toy
toy-IsFaithful = record {
  decodes = λ b. ap some (unshifted-shifted b);
  plain = shifted_plain;
  key_length = λ password salt. length-pad 32 (password ++ salt);
  version = refl;
  costs = refl;
}

abbrev secret : Bytes
secret = codes "correct horse"

abbrev salt : Bytes
salt = codes "salt"

abbrev hashed : Bytes
hashed = or_default [] (hash_password toy salt secret)

hashed_made : hash_password toy salt secret ≡ some hashed
unfolding hash_password
hashed_made = refl

verify-hash_password_example :
    (is_empty secret ≡ false)
    × (verify_password toy secret hashed ≡ some true)
    × (verify_password toy (codes "guess") hashed
        ≡ some (str_eq (derived_key toy (codes "guess") salt) (derived_key toy secret salt)))
verify-hash_password_example =
    verify-hash_password toy toy-IsFaithful salt secret (codes "guess") hashed hashed_made

-- A store of plain passwords.
abbrev plain_crypto : Crypto
plain_crypto = record {
  id_key = λ password salt time memory threads n. password;
  encode = λ s. s;
  decode = λ s. some s;
  scan_version = λ s. some (pos 19);
  scan_costs = λ s. some (65536, 3, 4);
}

abbrev ada : AdminUser
ada = record {
  id = codes "u1";
  username = codes "ada";
  password_hash = codes "$argon2id$v$m$s$correct horse";
  role = role_admin;
  enabled = true;
  last_login_at = none;
  created_at = 0;
  updated_at = 0;
}

abbrev staffed : Admins
staffed = record { users = ada ∷ []; sessions = [] }

staffed-IsSound : IsSound staffed
unfolding valid_role str_eq
staffed-IsSound = record { users = (refl, tt); roles = (refl, tt); sessions = tt; holders = tt }

write_all-IsSound_example : IsSound (
    write_all
      (insert_user (codes "u2") 9 (record ada { id = []; username = codes "Bob" })
        ∷ insert_session 9 (codes "hash") (codes "u2") (some 99000000000) [] []
        ∷ remove_user (codes "u1")
        ∷ [])
      staffed)
write_all-IsSound_example = write_all-IsSound _ staffed staffed-IsSound

abbrev panel : Admins → Panel
panel admins = record {
  admins = admins;
  database = empty_database;
  limiter = record { attempts = []; max = 5; window = 1000 };
  session_ttl = 43200000000000;
  secure_cookies = false;
  public_mount = false;
  bootstrapped = false;
}

abbrev request : Option Bytes → PanelRequest
request cookie = record {
  method = codes "DELETE";
  remote_addr = codes "1.2.3.4:5000";
  user_agent = [];
  host = codes "localhost";
  over_tls = false;
  session_cookie = cookie;
  csrf_cookie = some (codes "c1");
  csrf_header = codes "c1";
}

abbrev same : Bytes → Bytes
same t = t

abbrev is_local : Bytes → Bool
is_local host = true

abbrev cookies : Cookies
cookies = record {
  session = codes "t1";
  csrf = codes "c1";
  expires = 43202000000000;
  secure = false;
}

-- The panel after the sign-in.
abbrev entered : Panel
entered =
    (handle_login same is_local plain_crypto 2000000000 (some (codes "t1", codes "c1"))
      (request none) (codes " Ada") secret (panel staffed)).0

ada_enters :
    handle_login same is_local plain_crypto 2000000000
      (some (codes "t1", codes "c1"))
      (request none)
      (codes " Ada")
      secret
      (panel staffed)
    ≡ (entered, ok (ada, cookies))
unfolding handle_login welcome issue_session create_admin_session touch_admin_login
    get_admin_user_by_username password_matches verify_password verify_parts split_on allow succeed
    client_ip cut_port trim_brackets secure_cookie_for to_lower trim_space str_eq lookup delete
ada_enters = refl

current_user-handle_login_example :
    current_user same is_local 3000000000 (request (some (codes "t1"))) entered
    ≡ ok (
      record ada { last_login_at = some (2000000000 / 1000000000) },
      admin_session_row 2000000000
          (codes "t1")
          (codes "u1")
          (2000000000 + 43200000000000)
          (client_ip (codes "1.2.3.4:5000"))
          [],
    )
current_user-handle_login_example =
    current_user-handle_login same is_local plain_crypto 2000000000 3000000000 (codes "t1")
      (codes "c1") (request none) (request (some (codes "t1"))) (codes " Ada") secret
      (panel staffed) entered ada cookies staffed-IsSound ada_enters refl refl (omega arith)

abbrev left_panel : Panel
left_panel = (handle_logout same is_local 4000000000 true (request (some (codes "t1"))) entered).0

ada_leaves :
    handle_logout same is_local 4000000000 true (request (some (codes "t1"))) entered
    ≡ (left_panel, ok tt)
unfolding handle_logout authed current_user get_admin_session get_admin_user is_mutating check_csrf
    handle_login welcome issue_session create_admin_session touch_admin_login
    get_admin_user_by_username password_matches verify_password verify_parts split_on allow succeed
    client_ip cut_port trim_brackets secure_cookie_for to_lower trim_space str_eq lookup delete
ada_leaves = refl

current_user-handle_logout_example :
    current_user same is_local 5000000000 (request (some (codes "t1"))) left_panel ≡ (
      if true && str_eq (codes "t1") (codes "t1")
      then err 401
      else current_user same is_local 5000000000 (request (some (codes "t1"))) entered)
current_user-handle_logout_example =
    current_user-handle_logout same is_local 4000000000 5000000000 true
      (request (some (codes "t1"))) (request (some (codes "t1"))) entered left_panel ada_leaves

abbrev first_setup : Event
first_setup =
    bootstraps 2000000000 (codes "u1") (codes "a1") salt (some (codes "t1", codes "c1"))
      (request none) (codes "Ada") secret

abbrev deployed : Panel
deployed =
    (handle_bootstrap same is_local plain_crypto length 2000000000 (codes "u1") (codes "a1") salt
      (some (codes "t1", codes "c1")) (request none) (codes "Ada") secret (panel no_admins)).0

abbrev founder : AdminUser
founder = record ada {
  password_hash = or_default [] (hash_password plain_crypto salt secret);
  created_at = 2;
  updated_at = 2;
}

ada_deploys :
    handle_bootstrap same is_local plain_crypto length 2000000000
      (codes "u1")
      (codes "a1")
      salt
      (some (codes "t1", codes "c1"))
      (request none)
      (codes "Ada")
      secret
      (panel no_admins)
    ≡ (deployed, ok (founder, cookies))
unfolding handle_bootstrap count_admin_users create_admin_user new_user valid_role hash_password
    issue_session create_admin_session create_account client_ip cut_port trim_brackets
    secure_cookie_for to_lower trim_space str_eq
ada_deploys = refl

handle_bootstrap_once_example :
    (deployed.admins.users ≡ founder ∷ [])
    × (codes "ada" ≡ to_lower (trim_space (to_lower (trim_space (codes "Ada")))))
    × (role_admin ≡ codes "admin")
    × (true ≡ true)
    × ((later : ℕ) (id account salt' : Bytes) (draw' : Option (Bytes × Bytes)) (rq' : PanelRequest)
          (name' password' : Bytes)
        → handle_bootstrap same is_local plain_crypto length later id account salt' draw' rq' name'
            password' deployed
          ≡ (deployed, err 409))
    × ((bootstraps : Bool) → (public_gate bootstraps (panel no_admins)).1 ≡ err 503)
    × ((bootstraps : Bool)
        → (public_gate bootstraps deployed).1 ≡ (if bootstraps then err 403 else ok tt))
handle_bootstrap_once_example =
    handle_bootstrap_once same is_local plain_crypto length 2000000000 (codes "u1") (codes "a1")
      salt (some (codes "t1", codes "c1")) (request none) (codes "Ada") secret (panel no_admins)
      deployed founder cookies ada_deploys refl

abbrev founder_session : AdminSession
founder_session =
    admin_session_row 2000000000 (codes "t1") (codes "u1") (2000000000 + 43200000000000)
      (codes "1.2.3.4") []

founder_accepted :
    current_user same is_local 3000000000
      (request (some (codes "t1")))
      (panel_after same is_local plain_crypto length (first_setup ∷ []) (panel no_admins))
    ≡ ok (founder, founder_session)
unfolding panel_after step current_user get_admin_session get_admin_user handle_bootstrap
    count_admin_users create_admin_user new_user valid_role hash_password issue_session
    create_admin_session create_account client_ip cut_port trim_brackets secure_cookie_for to_lower
    trim_space str_eq
founder_accepted = refl

current_user-IsGranted_example :
    IsGranted same is_local plain_crypto length (first_setup ∷ []) (panel no_admins) founder_session
    × (codes "t1" ≡ codes "t1")
    × (codes "u1" ≡ codes "u1")
    × (true ≡ true)
    × (3000000000 ≤ founder_session.expires_at * 1000000000)
current_user-IsGranted_example =
    current_user-IsGranted same is_local plain_crypto length (first_setup ∷ []) (panel no_admins)
      refl 3000000000 (request (some (codes "t1"))) founder founder_session founder_accepted
