-- ===== src/Auth/Authenticator.antt =====
-- internal/server/auth/authenticator.go. A call reads the clock once; the writes that record when
-- a client was last seen are kept as a list until they run. The hash of a secret is an argument.
pub mod Cache
pub mod Readings
pub mod Recency
pub mod Outcomes
use drip_ex.Base.{
  ltb, leb, ◌==◌, if◌then◌else◌, ==_iff, Bool-cases, and-eq-true, Option-cases, is_some, or_default,
  length, get_or, set, take, drop, replicate, all, any, find?, select, All, length-append,
  length-set, get_or-set_self, get_or-set_ne, take-length_append, drop-length_append, Bytes, codes,
  str_eq, str_eq_iff, str_eq_refl, is_empty, is_empty_ne, ne_is_empty, is_upper, is_digit, is_space,
  lower_byte, upper_byte, to_lower, to_upper, trim_left, trim_space, strip_prefix, contains_byte,
  equal_fold, Map, lookup, insert, delete, lookup-insert, lookup-delete, Distinct, insert-Distinct,
  delete-Distinct, delete_absent, count, count-insert, count-replace, count-delete, tally,
  increment, decrement, tally-increment, tally-decrement, decrement-increment, Result, refuse_if,
  ◌>>=◌, ◌>>◌, >>=-eq-ok, ℤ, pos_part, neg_part, ◌≤ℤ◌, ltb_ℤ, NoClash, select-NoClash, All-map,
  All-weaken, All-select, any-All, All-any, All-both, All-units, any-map, any-select, map-NoClash,
  map-NoClash_pairs, ok, err, pos, negsuc, ℕ, zero, suc, ◌+◌, ◌-◌, ◌*◌, ◌/◌, ◌%◌, ◌^◌, ◌≤◌, ◌<◌,
  min, bit_xor, String, ◌≡◌, refl, sym, ap, subst, ◌∙◌, ◌≢◌, ◌↔◌, ◌⊎◌, inl, inr, Bool, true, false,
  not, ◌&&◌, ◌||◌, Option, none, some, List, [], ◌∷◌, ◌++◌, map, arith, ℕ_discrete,
}
use drip_ex.Auth.Credentials.{
  Credential, CredentialError, is_credential, parse_credential, verify_secret,
}
use drip_ex.Store.Reservations.{StoreError, not_found}
use drip_ex.Store.Database.{Client, Account, Database, get_client, get_account, touch_client}

-- A fault of the database is passed on.
pub data AuthError : Type 0 where
  invalid_credential client_disabled account_disabled auth_required : AuthError
  lookup_failed : StoreError → AuthError

pub data Identity : Type 0 where
  stored : Client → Account → Identity
  legacy anonymous : Identity

-- `Identity.ClientID` and `Identity.AccountID`.
unfoldable pub identity_client_id : Identity → Bytes
identity_client_id (stored client account) = client.id
identity_client_id legacy = []
identity_client_id anonymous = []

unfoldable pub identity_account_id : Identity → Bytes
identity_account_id (stored client account) = account.id
identity_account_id legacy = []
identity_account_id anonymous = []

pub record CacheEntry : Type 0 where
  pub client : Client
  pub account : Account
  pub expires_at : ℕ

-- What the authenticator reads of the store.
pub record CredentialStore : Type 0 where
  pub client : Bytes → Result StoreError Client
  pub account : Bytes → Result StoreError Account

unfoldable pub database_store : Database → CredentialStore
database_store db = record { client = get_client db; account = get_account db }

pub record AuthConfig : Type 0 where
  pub legacy_token : Bytes
  pub allow_anonymous : Bool
  -- In nanoseconds.
  pub cache_ttl : ℤ

pub record Authenticator : Type 0 where
  pub legacy_token : Bytes
  pub allow_anonymous : Bool
  pub cache_ttl : ℕ
  pub cache : Map CacheEntry
  -- The client and the address of each write that has not run yet.
  pub touches : List (Bytes × Bytes)
  pub closed : Bool

abbrev default_cache_ttl : ℕ
default_cache_ttl = 30000000000

abbrev pub ttl_or_default : ℤ → ℕ
ttl_or_default (pos zero) = default_cache_ttl
ttl_or_default (pos (suc n)) = suc n
ttl_or_default (negsuc n) = default_cache_ttl

unfoldable pub new_authenticator : AuthConfig → Authenticator
new_authenticator cfg = record {
  legacy_token = cfg.legacy_token;
  allow_anonymous = cfg.allow_anonymous;
  cache_ttl = ttl_or_default cfg.cache_ttl;
  cache = [];
  touches = [];
  closed = false;
}

abbrev pub if_current : ℕ → Option CacheEntry → Option CacheEntry
if_current now none = none
if_current now (some entry) = if ltb now entry.expires_at then some entry else none

-- The entry of the cache that has not expired.
unfoldable pub cached : ℕ → Authenticator → Bytes → Option CacheEntry
cached now a id = if_current now (lookup id a.cache)

-- Nothing found is an unusable credential; a fault of the database is passed on.
abbrev pub or_invalid {ℓ} : {A : Type ℓ} → Result StoreError A → Result AuthError A
or_invalid (ok value) = ok value
or_invalid (err reason) = elim reason [
  | not_found ↦ err invalid_credential
  | other ↦ err (lookup_failed other)
]

unfoldable pub read_store : CredentialStore → Bytes → Result AuthError (Client × Account)
read_store store id = do
  client ← or_invalid (store.client id)
  account ← or_invalid (store.account client.account_id)
  ok (client, account)

unfoldable pub remember :
    ℕ → Bytes → Result AuthError (Client × Account) → Authenticator → Authenticator
remember now id (err reason) a = a
remember now id (ok (client, account)) a = record a {
  cache =
      insert id (record { client = client; account = account; expires_at = now + a.cache_ttl })
        a.cache;
}

abbrev pub or_read :
    ℕ
    → CredentialStore
    → Bytes
    → Authenticator
    → Option CacheEntry
    → Authenticator × Result AuthError (Client × Account)
or_read now store id a none = (remember now id (read_store store id) a, read_store store id)
or_read now store id a (some entry) = (a, ok (entry.client, entry.account))

-- `lookup`, whose name the maps have.
unfoldable pub find_credential :
    ℕ
    → CredentialStore
    → Bytes
    → Authenticator
    → Authenticator × Result AuthError (Client × Account)
find_credential now store id a = or_read now store id a (cached now a id)

unfoldable pub touch : Bytes → Bytes → Authenticator → Authenticator
touch client_id remote_ip a =
    if a.closed then a else record a { touches = (client_id, remote_ip) ∷ a.touches }

-- What the client and the account of a credential make of the secret that came with it.
unfoldable pub check_client : (Bytes → Bytes) → Bytes → Client × Account → Result AuthError Identity
check_client hash secret (client, account) = do
  refuse_if (not (verify_secret hash secret client.secret_hash)) invalid_credential
  refuse_if (not client.enabled) client_disabled
  refuse_if (not account.enabled) account_disabled
  ok (stored client account)

abbrev pub touch_identity : Bytes → Result AuthError Identity → Authenticator → Authenticator
touch_identity remote_ip (err reason) a = a
touch_identity remote_ip (ok who) a = touch (identity_client_id who) remote_ip a

abbrev pub finish_credential :
    (Bytes → Bytes)
    → Bytes
    → Bytes
    → Authenticator × Result AuthError (Client × Account)
    → Authenticator × Result AuthError Identity
finish_credential hash secret remote_ip (a, found) =
    let who = found >>= check_client hash secret in (touch_identity remote_ip who a, who)

abbrev pub with_credential :
    (Bytes → Bytes)
    → ℕ
    → CredentialStore
    → Bytes
    → Authenticator
    → Result CredentialError Credential
    → Authenticator × Result AuthError Identity
with_credential hash now store remote_ip a (err reason) = (a, err invalid_credential)
with_credential hash now store remote_ip a (ok credential) =
    finish_credential hash credential.secret remote_ip (find_credential now store credential.id a)

unfoldable pub authenticate_credential :
    (Bytes → Bytes)
    → ℕ
    → CredentialStore
    → Bytes
    → Bytes
    → Authenticator
    → Authenticator × Result AuthError Identity
authenticate_credential hash now store token remote_ip a =
    with_credential hash now store remote_ip a (parse_credential token)

-- The tokens that are no stored credential.
unfoldable pub authenticate_shared : Authenticator → Bytes → Result AuthError Identity
authenticate_shared a token =
    if not (is_empty a.legacy_token)
    then (if str_eq token a.legacy_token then ok legacy else err invalid_credential)
    else if a.allow_anonymous
    then ok anonymous
    else if is_empty token
    then err auth_required
    else err invalid_credential

-- `store` is `none` where the server has no database.
abbrev pub with_store :
    (Bytes → Bytes)
    → ℕ
    → Bytes
    → Bytes
    → Authenticator
    → Option CredentialStore
    → Authenticator × Result AuthError Identity
with_store hash now token remote_ip a none = (a, err invalid_credential)
with_store hash now token remote_ip a (some store) =
    authenticate_credential hash now store token remote_ip a

unfoldable pub authenticate :
    (Bytes → Bytes)
    → ℕ
    → Option CredentialStore
    → Bytes
    → Bytes
    → Authenticator
    → Authenticator × Result AuthError Identity
authenticate hash now store token remote_ip a =
    if is_credential token
    then with_store hash now token remote_ip a store
    else (a, authenticate_shared a token)

-- The writes of `touch` that are under way run; their errors are only logged.
unfoldable pub run_touches : ℕ → List (Bytes × Bytes) → Database → Database
run_touches now [] db = db
run_touches now ((client_id, remote_ip) ∷ rest) db =
    run_touches now rest (touch_client now client_id remote_ip db)

-- No write starts from now on, and those that are under way run to their end.
unfoldable pub close : ℕ → Authenticator → Database → Authenticator × Database
unfolding run_touches
close now a db = (record a { closed = true; touches = [] }, run_touches now a.touches db)

unfoldable pub invalidate : Bytes → Authenticator → Authenticator
invalidate client_id a = record a { cache = delete client_id a.cache }

unfoldable pub invalidate_all : Authenticator → Authenticator
invalidate_all a = record a { cache = [] }

-- The entries that the purge leaves.
unfoldable pub unexpired : ℕ → Map CacheEntry → Map CacheEntry
unexpired now [] = []
unexpired now ((id, entry) ∷ cache) =
    let rest = unexpired now cache in if ltb entry.expires_at now then rest else (id, entry) ∷ rest

unfoldable pub purge_expired : ℕ → Authenticator → Authenticator
unfolding unexpired
purge_expired now a = record a { cache = unexpired now a.cache }
