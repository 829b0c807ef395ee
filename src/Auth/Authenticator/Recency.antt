-- ===== src/Auth/Authenticator/Recency.antt =====
-- How old an answer of the store can be that lets a client in: time passes, the store changes, and
-- the calls of the authenticator run in any order.
use mathlib.Core.Path.{ap₂}
use drip_ex.Base.{
  if◌then◌else◌, Bytes, lookup, Result, >>=-eq-ok, ℤ, ok, err, pos, negsuc, ℕ, zero, suc, ◌+◌, ◌<◌,
  ◌≡◌, refl, sym, ap, subst, ◌∙◌, ◌≢◌, inl, inr, Bool, true, false, Option, none, some, List, [],
  ◌∷◌, arith,
}
use drip_ex.Store.Reservations.{StoreError, not_found}
use drip_ex.Store.Database.{Client, Account}
use drip_ex.Auth.Credentials.{
  Credential, CredentialError, is_credential, parse_credential, verify_secret,
}
use drip_ex.Auth.Authenticator.{
  AuthError, Identity, stored, CacheEntry, CredentialStore, AuthConfig, Authenticator, or_invalid,
  ttl_or_default, if_current, cached, read_store, or_read, find_credential, check_client,
  with_credential, authenticate_credential, authenticate_shared, with_store, authenticate,
}
use drip_ex.Auth.Authenticator.Readings.{Snapshot, Once, Reach, IsFaithful, Reach-IsFaithful}

-- The store held the credential's client and account less than `ttl` before `now`.
pub record WasHeld (ttl now : ℕ) (id : Bytes) (client : Client) (account : Account) (at : Snapshot)
    : Type 0 where
  pub recent : now < at.0 + ttl
  pub held_client : at.1.client id ≡ ok client
  pub held_account : at.1.account client.account_id ≡ ok account

or_invalid_ok :
    {A : Type 0} (answer : Result StoreError A) (value : A)
    → or_invalid answer ≡ ok value
    → answer ≡ ok value
or_invalid_ok (ok other) value e = cc
or_invalid_ok (err not_found) value e = cc
or_invalid_ok (err reason) value e = ground arith

read_store_ok :
    (s : CredentialStore) (id : Bytes) (client : Client) (account : Account)
    → read_store s id ≡ ok (client, account)
    → (s.client id ≡ ok client) × (s.account client.account_id ≡ ok account)
unfolding read_store
read_store_ok s id client account e =
    let (c, first, rest) = >>=-eq-ok (or_invalid (s.client id)) _ e in
    let (b, second, last) = >>=-eq-ok (or_invalid (s.account c.account_id)) _ rest in
    let same : c ≡ client = cc in
    let same' : b ≡ account = cc in
    (
      subst (λ x. s.client id ≡ ok x) same (or_invalid_ok (s.client id) c first),
      subst (λ x. s.account client.account_id ≡ ok x) same'
          (subst (λ x. s.account x.account_id ≡ ok b) same
            (or_invalid_ok (s.account c.account_id) b second)),
    )

Once-weaken :
    (P Q : Snapshot → Type 0) (h : List Snapshot)
    → ((at : Snapshot) → P at → Q at)
    → Once P h
    → Once Q h
Once-weaken P Q [] weaken p = absurd p
Once-weaken P Q (at ∷ h) weaken (inl p) = inl (weaken at p)
Once-weaken P Q (at ∷ h) weaken (inr p) = inr (Once-weaken P Q h weaken p)

ttl_pos : (given : ℤ) → 0 < ttl_or_default given
ttl_pos (pos zero) = omega arith
ttl_pos (pos (suc n)) = omega arith
ttl_pos (negsuc n) = omega arith

module _ (ttl t : ℕ) (s : CredentialStore) (before : List Snapshot) (id : Bytes) (a : Authenticator)
    (client : Client) (account : Account) (inv : IsFaithful ttl ((t, s) ∷ before) a)
    (live : 0 < ttl) where
  cached-Once :
      (entry : CacheEntry) (found : Option CacheEntry)
      → lookup id a.cache ≡ found
      → if_current t found ≡ some entry
      → ◌≡◌ {A = Result AuthError (Client × Account)}
          (ok (entry.client, entry.account))
          (ok (client, account))
      → Once (WasHeld ttl t id client account) ((t, s) ∷ before)
  cached-Once entry none e current same = cc
  cached-Once entry (some other) e current same =
      let fresh : t < other.expires_at = ground arith in
      let same_entry : other ≡ entry = ground arith in
      let same_client : other.client ≡ client = cc in
      let same_account : other.account ≡ account = cc in
      Once-weaken _ _ ((t, s) ∷ before)
        (λ at (read, expires).
          let (c, b) = read_store_ok at.1 id other.client other.account read in
          record {
            recent = omega (arith, fresh, expires);
            held_client = c ∙ ap ok same_client;
            held_account =
                subst (λ x. at.1.account x.account_id ≡ ok other.account) same_client b
                ∙ ap ok same_account;
          })
        (inv.readings id other e)

  found-Once :
      (found : Option CacheEntry)
      → cached t a id ≡ found
      → (or_read t s id a found).1 ≡ ok (client, account)
      → Once (WasHeld ttl t id client account) ((t, s) ∷ before)
  unfolding cached
  found-Once none current e =
      let (c, b) = read_store_ok s id client account e in
      inl (record { recent = omega (arith, live); held_client = c; held_account = b })
  found-Once (some entry) current e = cached-Once entry (lookup id a.cache) refl current e

check_client_ok :
    (hash : Bytes → Bytes) (secret : Bytes) (c client : Client) (b account : Account)
    → check_client hash secret (c, b) ≡ ok (stored client account)
    → (c ≡ client)
      × (b ≡ account)
      × (verify_secret hash secret client.secret_hash ≡ true)
      × (client.enabled ≡ true)
      × (account.enabled ≡ true)
unfolding check_client
check_client_ok hash secret c client b account e =
    let same : ◌≡◌ {A = Result AuthError Identity} (ok (stored c b)) (ok (stored client account)) =
      ground arith in
    let same_client : c ≡ client = cc in
    let same_account : b ≡ account = cc in
    let secret_ok : verify_secret hash secret c.secret_hash ≡ true = ground arith in
    let client_ok : c.enabled ≡ true = ground arith in
    let account_ok : b.enabled ≡ true = ground arith in
    (
      same_client,
      same_account,
      subst (λ x. verify_secret hash secret x.secret_hash ≡ true) same_client secret_ok,
      ap (λ x. x.enabled) (sym same_client) ∙ client_ok,
      ap (λ x. x.enabled) (sym same_account) ∙ account_ok,
    )

no_stored_shared :
    (a : Authenticator) (token : Bytes) (client : Client) (account : Account)
    → authenticate_shared a token ≢ ok (stored client account)
unfolding authenticate_shared
no_stored_shared a token client account e = ground arith

abbrev pub IsLetIn :
    (Bytes → Bytes)
    → AuthConfig
    → ℕ
    → CredentialStore
    → List Snapshot
    → Bytes
    → Client
    → Account
    → Type 0
IsLetIn hash cfg t s before token client account =
    (c : Credential) × (parse_credential token ≡ ok c)
    × (verify_secret hash c.secret client.secret_hash ≡ true)
    × (client.enabled ≡ true)
    × (account.enabled ≡ true)
    × Once (WasHeld (ttl_or_default cfg.cache_ttl) t c.id client account) ((t, s) ∷ before)

let_in :
    (hash : Bytes → Bytes) (cfg : AuthConfig) (t : ℕ) (s : CredentialStore) (before : List Snapshot)
    (a : Authenticator) (token ip : Bytes) (client : Client) (account : Account)
    → Reach hash cfg ((t, s) ∷ before) a
    → (c : Credential) → parse_credential token ≡ ok c
    → (with_credential hash t s ip a (ok c)).1 ≡ ok (stored client account)
    → IsLetIn hash cfg t s before token client account
unfolding find_credential
let_in hash cfg t s before a token ip client account r c parsed e =
    let found = cached t a c.id in
    let ((client', account'), read, checked) =
      >>=-eq-ok (or_read t s c.id a found).1 (check_client hash c.secret) e in
    let (same_client, same_account, secret_ok, client_ok, account_ok) =
      check_client_ok hash c.secret client' client account' account checked in
    let held =
      found-Once (ttl_or_default cfg.cache_ttl) t s before c.id a client account
        (Reach-IsFaithful r) (ttl_pos cfg.cache_ttl) found refl
        (read ∙ ap₂ (λ d b. ok (d, b)) same_client same_account) in
    (c, parsed, secret_ok, client_ok, account_ok, held)

-- A client is let in as itself only with a token that parses as a credential, whose secret has the
-- hash that the store held with the client, where client and account were both enabled; and the
-- store held all this at a moment from which on less than the cache's time to live has passed. So a
-- credential that is disabled, deleted or given a new secret works no longer than that, even where
-- nothing invalidates it, whatever calls come in between.
pub authenticate-WasHeld :
    (hash : Bytes → Bytes) (cfg : AuthConfig) (t : ℕ) (s : CredentialStore) (before : List Snapshot)
    (a : Authenticator) (token ip : Bytes) (client : Client) (account : Account)
    → Reach hash cfg ((t, s) ∷ before) a
    → (authenticate hash t (some s) token ip a).1 ≡ ok (stored client account)
    → IsLetIn hash cfg t s before token client account
unfolding authenticate authenticate_credential
authenticate-WasHeld hash cfg t s before a token ip client account r e =
    by_shape (is_credential token) e
  where
    by_parsed :
        (parsed : Result CredentialError Credential)
        → parse_credential token ≡ parsed
        → (with_credential hash t s ip a parsed).1 ≡ ok (stored client account)
        → IsLetIn hash cfg t s before token client account
    by_parsed (err reason) p e = cc
    by_parsed (ok c) p e = let_in hash cfg t s before a token ip client account r c p e

    by_shape :
        (shaped : Bool)
        → (if shaped
            then with_store hash t token ip a (some s)
            else (a, authenticate_shared a token)).1
          ≡ ok (stored client account)
        → IsLetIn hash cfg t s before token client account
    by_shape true e = by_parsed (parse_credential token) refl e
    by_shape false e = absurd (no_stored_shared a token client account e)
