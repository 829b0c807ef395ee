-- ===== src/Auth/Authenticator/Readings.antt =====
-- What the cache holds along a history of the store and of the calls: each entry is what the store held
-- at a moment of it. internal/server/auth/authenticator.go.
use drip_ex.Base.{
  if◌then◌else◌, Bytes, str_eq, str_eq_iff, Map, lookup, lookup-insert, lookup-delete, Distinct,
  insert-Distinct, delete-Distinct, Result, ok, err, ℕ, ◌+◌, ◌≤◌, ◌≡◌, refl, sym, ap, subst, ◌∙◌,
  ◌⊎◌, inl, inr, Bool, true, false, Option, none, some, List, [], ◌∷◌, arith,
}
use drip_ex.Store.Database.{Client, Account}
use drip_ex.Auth.Credentials.{Credential, CredentialError, parse_credential}
use drip_ex.Auth.Authenticator.{
  AuthError, Identity, CacheEntry, CredentialStore, AuthConfig, Authenticator, ttl_or_default,
  new_authenticator, cached, read_store, remember, or_read, find_credential, touch, touch_identity,
  with_credential, authenticate_credential, authenticate, invalidate, invalidate_all, unexpired,
  purge_expired,
}
use drip_ex.Auth.Authenticator.Cache.{lookup-unexpired_absent, lookup-unexpired, if_unexpired}

-- The store at a time.
abbrev pub Snapshot : Type 0
Snapshot = ℕ × CredentialStore

-- At some time of a history.
abbrev pub Once : (Snapshot → Type 0) → List Snapshot → Type 0
Once P [] = ⊥
Once P (now ∷ before) = P now ⊎ Once P before

-- The histories of the store, newest first, with the states that the authenticator can be in.
pub data Reach (hash : Bytes → Bytes) (cfg : AuthConfig)
    : List Snapshot → Authenticator → Type 0 where
  started : (now : Snapshot) → Reach hash cfg (now ∷ []) (new_authenticator cfg)
  passed :
      {t : ℕ} {s : CredentialStore} {before : List Snapshot} {a : Authenticator}
      → (t' : ℕ) → (s' : CredentialStore) → t ≤ t'
      → Reach hash cfg ((t, s) ∷ before) a
      → Reach hash cfg ((t', s') ∷ (t, s) ∷ before) a
  called :
      {t : ℕ} {s : CredentialStore} {before : List Snapshot} {a : Authenticator}
      → (token ip : Bytes) → Reach hash cfg ((t, s) ∷ before) a
      → Reach hash cfg ((t, s) ∷ before) (authenticate hash t (some s) token ip a).0
  invalidated :
      {h : List Snapshot} {a : Authenticator}
      → (id : Bytes) → Reach hash cfg h a
      → Reach hash cfg h (invalidate id a)
  cleared :
      {h : List Snapshot} {a : Authenticator}
      → Reach hash cfg h a
      → Reach hash cfg h (invalidate_all a)
  purged :
      {h : List Snapshot} {a : Authenticator}
      → (now : ℕ) → Reach hash cfg h a
      → Reach hash cfg h (purge_expired now a)

-- The entry is what the store held at that time, and expires `ttl` later.
abbrev IsReading : ℕ → Bytes → CacheEntry → Snapshot → Type 0
IsReading ttl id entry (t, s) =
    (read_store s id ≡ ok (entry.client, entry.account)) × (entry.expires_at ≡ t + ttl)

pub record IsFaithful (ttl : ℕ) (h : List Snapshot) (a : Authenticator) : Type 0 where
  ttl_kept : a.cache_ttl ≡ ttl
  distinct : Distinct a.cache
  pub readings :
      (id : Bytes) (entry : CacheEntry)
      → lookup id a.cache ≡ some entry
      → Once (IsReading ttl id entry) h

-- Another cache whose entries are entries of the first.
shrunk-IsFaithful :
    (ttl : ℕ) (h : List Snapshot) (a b : Authenticator)
    → b.cache_ttl ≡ a.cache_ttl
    → Distinct b.cache
    → ((id : Bytes) (entry : CacheEntry)
        → lookup id b.cache ≡ some entry
        → lookup id a.cache ≡ some entry)
    → IsFaithful ttl h a
    → IsFaithful ttl h b
shrunk-IsFaithful ttl h a b same d sub inv = record {
  ttl_kept = same ∙ inv.ttl_kept;
  distinct = d;
  readings = λ id entry e. inv.readings id entry (sub id entry e);
}

unexpired-Distinct :
    (now : ℕ) (cache : Map CacheEntry) → Distinct cache → Distinct (unexpired now cache)
unfolding unexpired
unexpired-Distinct now [] d = tt
unexpired-Distinct now ((id, entry) ∷ cache) d =
    ground (arith, unexpired-Distinct now cache d.1, lookup-unexpired_absent now id cache)

if_unexpired-some :
    (now : ℕ) (found : Option CacheEntry) (entry : CacheEntry)
    → if_unexpired now found ≡ some entry
    → found ≡ some entry
if_unexpired-some now none entry e = cc
if_unexpired-some now (some other) entry e = ground arith

remember-IsFaithful :
    (ttl t : ℕ) (s : CredentialStore) (before : List Snapshot) (id : Bytes)
    (answer : Result AuthError (Client × Account)) (a : Authenticator)
    → read_store s id ≡ answer
    → IsFaithful ttl ((t, s) ∷ before) a
    → IsFaithful ttl ((t, s) ∷ before) (remember t id answer a)
unfolding remember
remember-IsFaithful ttl t s before id (err reason) a e inv = inv
remember-IsFaithful ttl t s before id (ok (client, account)) a e inv =
    let entry : CacheEntry = record {
      client = client;
      account = account;
      expires_at = t + a.cache_ttl;
    } in
    record {
      ttl_kept = inv.ttl_kept;
      distinct = insert-Distinct id entry a.cache inv.distinct;
      readings = λ other found h.
          by_id other found (str_eq id other) refl (sym (lookup-insert id other entry a.cache) ∙ h);
    }
  where
    by_id :
        (other : Bytes) (found : CacheEntry) (here : Bool)
        → str_eq id other ≡ here
        → (if here
            then some (record { client = client; account = account; expires_at = t + a.cache_ttl })
            else lookup other a.cache)
          ≡ some found
        → Once (IsReading ttl other found) ((t, s) ∷ before)
    by_id other found true same h =
        let here : id ≡ other = (str_eq_iff id other).0 same in
        let entry : record { client = client; account = account; expires_at = t + a.cache_ttl }
            ≡ found =
          ground arith in
        inl (
          subst (λ f. IsReading ttl other f (t, s)) entry
            (
              subst (λ o. read_store s o ≡ ok (client, account)) here e,
              ap (λ n. t + n) inv.ttl_kept,
            ))
    by_id other found false same h = inv.readings other found h

found-IsFaithful :
    (ttl t : ℕ) (s : CredentialStore) (before : List Snapshot) (id : Bytes) (a : Authenticator)
    (found : Option CacheEntry)
    → IsFaithful ttl ((t, s) ∷ before) a
    → IsFaithful ttl ((t, s) ∷ before) (or_read t s id a found).0
found-IsFaithful ttl t s before id a none inv =
    remember-IsFaithful ttl t s before id (read_store s id) a refl inv
found-IsFaithful ttl t s before id a (some entry) inv = inv

touched-IsFaithful :
    (ttl : ℕ) (h : List Snapshot) (ip : Bytes) (who : Result AuthError Identity) (a : Authenticator)
    → IsFaithful ttl h a
    → IsFaithful ttl h (touch_identity ip who a)
unfolding touch
touched-IsFaithful ttl h ip (err reason) a inv = inv
touched-IsFaithful ttl h ip (ok who) a inv = ground arith

module _ (hash : Bytes → Bytes) (ttl t : ℕ) (s : CredentialStore) (before : List Snapshot)
    (token ip : Bytes) (a : Authenticator) (inv : IsFaithful ttl ((t, s) ∷ before) a) where
  with_credential-IsFaithful :
      (parsed : Result CredentialError Credential)
      → IsFaithful ttl ((t, s) ∷ before) (with_credential hash t s ip a parsed).0
  unfolding find_credential
  with_credential-IsFaithful (err reason) = inv
  with_credential-IsFaithful (ok c) =
      touched-IsFaithful ttl ((t, s) ∷ before) ip _ _
        (found-IsFaithful ttl t s before c.id a (cached t a c.id) inv)

  authenticate-IsFaithful :
      IsFaithful ttl ((t, s) ∷ before) (authenticate hash t (some s) token ip a).0
  unfolding authenticate authenticate_credential
  authenticate-IsFaithful =
      let kept = with_credential-IsFaithful (parse_credential token) in ground arith

pub Reach-IsFaithful :
    {hash : Bytes → Bytes} {cfg : AuthConfig} {h : List Snapshot} {a : Authenticator}
    → Reach hash cfg h a
    → IsFaithful (ttl_or_default cfg.cache_ttl) h a
unfolding new_authenticator lookup invalidate invalidate_all purge_expired
Reach-IsFaithful (started now) = record {
  ttl_kept = refl;
  distinct = tt;
  readings = λ id entry e. cc;
}
Reach-IsFaithful (passed t' s' later r) =
    let inv = Reach-IsFaithful r in
    record {
      ttl_kept = inv.ttl_kept;
      distinct = inv.distinct;
      readings = λ id entry e. inr (inv.readings id entry e);
    }
Reach-IsFaithful {hash} {cfg} (called {t} {s} {before} {a} token ip r) =
    authenticate-IsFaithful hash (ttl_or_default cfg.cache_ttl) t s before token ip a
      (Reach-IsFaithful r)
Reach-IsFaithful {cfg = cfg} (invalidated {h} {a} id r) =
    let inv = Reach-IsFaithful r in
    shrunk-IsFaithful (ttl_or_default cfg.cache_ttl) h a (invalidate id a) refl
      (delete-Distinct id a.cache inv.distinct)
      (λ other entry e. ground (arith, lookup-delete id other a.cache)) inv
Reach-IsFaithful {cfg = cfg} (cleared {h} {a} r) =
    shrunk-IsFaithful (ttl_or_default cfg.cache_ttl) h a (invalidate_all a) refl tt
      (λ other entry e. cc) (Reach-IsFaithful r)
Reach-IsFaithful {cfg = cfg} (purged {h} {a} now r) =
    let inv = Reach-IsFaithful r in
    shrunk-IsFaithful (ttl_or_default cfg.cache_ttl) h a (purge_expired now a) refl
      (unexpired-Distinct now a.cache inv.distinct)
      (λ other entry e.
        if_unexpired-some now (lookup other a.cache) entry
          (sym (lookup-unexpired now other a.cache inv.distinct) ∙ e))
      inv
