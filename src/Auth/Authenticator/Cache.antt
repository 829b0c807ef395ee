-- ===== src/Auth/Authenticator/Cache.antt =====
-- What taking entries out of the cache means for the calls that follow.
use drip_ex.Base.{
  ltb, if◌then◌else◌, Bytes, str_eq, str_eq_iff, strip_prefix, Map, lookup, lookup-delete, Distinct,
  Result, ◌>>=◌, ok, err, ℕ, ◌≤◌, ◌≡◌, refl, ap, subst, true, Option, none, some, [], ◌∷◌, arith,
}
use drip_ex.Auth.Credentials.{
  Credential, CredentialError, is_credential, parse_credential, show_credential,
}
use drip_ex.Auth.Credentials.Tokens.{show-parse_credential}
use drip_ex.Auth.Authenticator.{
  or_read, with_credential, CacheEntry, CredentialStore, Authenticator, cached, read_store,
  find_credential, check_client, authenticate_credential, authenticate_shared, authenticate,
  invalidate, unexpired, purge_expired,
}

cached-invalidate :
    (now : ℕ) (id other : Bytes) (a : Authenticator)
    → cached now (invalidate id a) other ≡ (if str_eq id other then none else cached now a other)
unfolding cached invalidate
cached-invalidate now id other a = ground (arith, lookup-delete id other a.cache)

pub lookup-unexpired_absent :
    (now : ℕ) (id : Bytes) (cache : Map CacheEntry)
    → lookup id cache ≡ none
    → lookup id (unexpired now cache) ≡ none
unfolding unexpired lookup
lookup-unexpired_absent now id [] h = refl
lookup-unexpired_absent now id ((j, entry) ∷ cache) h =
    ground (arith, lookup-unexpired_absent now id cache)

abbrev pub if_unexpired : ℕ → Option CacheEntry → Option CacheEntry
if_unexpired now none = none
if_unexpired now (some entry) = if ltb entry.expires_at now then none else some entry

pub lookup-unexpired :
    (now : ℕ) (id : Bytes) (cache : Map CacheEntry)
    → Distinct cache
    → lookup id (unexpired now cache) ≡ if_unexpired now (lookup id cache)
unfolding unexpired lookup
lookup-unexpired now id [] d = refl
lookup-unexpired now id ((j, entry) ∷ cache) d = ground (
  arith,
  lookup-unexpired now id cache d.1,
  lookup-unexpired_absent now id cache,
  str_eq_iff j id,
)

cached-purge_expired :
    (before now : ℕ) (id : Bytes) (a : Authenticator)
    → Distinct a.cache
    → before ≤ now
    → cached now (purge_expired before a) id ≡ cached now a id
unfolding cached purge_expired
cached-purge_expired before now id a d h = ground (arith, lookup-unexpired before id a.cache d)

-- What a call answers depends on the cache only through the entries that have not expired.
answer-or_read :
    (now : ℕ) (store : CredentialStore) (id : Bytes) (a b : Authenticator)
    (found : Option CacheEntry)
    → (or_read now store id a found).1 ≡ (or_read now store id b found).1
answer-or_read now store id a b none = refl
answer-or_read now store id a b (some entry) = refl

answer-find_credential :
    (now : ℕ) (store : CredentialStore) (id : Bytes) (a b : Authenticator)
    → cached now a id ≡ cached now b id
    → (find_credential now store id a).1 ≡ (find_credential now store id b).1
unfolding find_credential
answer-find_credential now store id a b same =
    rw same (answer-or_read now store id a b (cached now b id))

module _ (hash : Bytes → Bytes) (now : ℕ) (token ip : Bytes) (a b : Authenticator) where
  answer-with_credential :
      (store : CredentialStore) (parsed : Result CredentialError Credential)
      → ((id : Bytes) → cached now a id ≡ cached now b id)
      → (with_credential hash now store ip a parsed).1
        ≡ (with_credential hash now store ip b parsed).1
  answer-with_credential store (err reason) same = refl
  answer-with_credential store (ok c) same =
      ap (λ found. found >>= check_client hash c.secret)
        (answer-find_credential now store c.id a b (same c.id))

  answer-authenticate :
      (store : Option CredentialStore)
      → ((id : Bytes) → cached now a id ≡ cached now b id)
      → authenticate_shared a token ≡ authenticate_shared b token
      → (authenticate hash now store token ip a).1 ≡ (authenticate hash now store token ip b).1
  unfolding authenticate authenticate_credential
  answer-authenticate none same shared = ground arith
  answer-authenticate (some store) same shared =
      let stored_same = answer-with_credential store (parse_credential token) same in ground arith

-- A purge of the expired entries that ran before, at a time not later than now, changes no answer
-- of the authenticator.
pub authenticate-purge_expired :
    (hash : Bytes → Bytes) (before now : ℕ) (store : Option CredentialStore) (token ip : Bytes)
    (a : Authenticator)
    → Distinct a.cache
    → before ≤ now
    → (authenticate hash now store token ip (purge_expired before a)).1
      ≡ (authenticate hash now store token ip a).1
unfolding authenticate_shared purge_expired
authenticate-purge_expired hash before now store token ip a d h =
    answer-authenticate hash now token ip (purge_expired before a) a store
      (λ id. cached-purge_expired before now id a d h) refl

-- After a credential is invalidated, a token of it is judged by what the store holds now: the
-- client and the account are read again, and the secret and both switches checked. A token of any
-- other credential is judged as without the invalidation.
pub authenticate-invalidate :
    (hash : Bytes → Bytes) (now : ℕ) (store : CredentialStore) (token ip : Bytes) (c : Credential)
    (id : Bytes) (a : Authenticator)
    → parse_credential token ≡ ok c
    → (authenticate hash now (some store) token ip (invalidate id a)).1 ≡ (
        if str_eq id c.id
        then read_store store c.id >>= check_client hash c.secret
        else (authenticate hash now (some store) token ip a).1)
unfolding authenticate authenticate_credential find_credential is_credential show_credential
    strip_prefix
authenticate-invalidate hash now store token ip c id a parsed =
    let shaped : is_credential token ≡ true =
      subst (λ t. is_credential t ≡ true) (show-parse_credential token c parsed).0 refl in
    rw (shaped, parsed, cached-invalidate now id c.id a) (ground arith)
