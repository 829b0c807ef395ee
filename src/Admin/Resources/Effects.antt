-- ===== src/Admin/Resources/Effects.antt =====
-- What a change in the panel means for the credentials that the server keeps in its cache:
-- internal/server/admin/api_resources.go and internal/server/auth/authenticator.go.
use drip_ex.Base.{
  if◌then◌else◌, Bool-cases, or_default, any, find?, select, Bytes, str_eq, str_eq_iff, str_eq_refl,
  strip_prefix, lookup, lookup-delete, Result, ◌>>=◌, ℤ, All-units, find-All, find-map, ok, ℕ, ◌≡◌,
  refl, sym, ap, subst, ◌∙◌, ◌≢◌, inl, inr, Bool, true, false, ◌&&◌, Option, none, some, List, [],
  ◌∷◌, map, arith,
}
use drip_ex.Store.Database.{
  Account, Client, is_account, is_client, is_owned_by, updated_account, with_secret, get_account,
  get_client, update_account, rotate_client_secret,
}
use drip_ex.Auth.Credentials.{
  Credential, is_credential, show_credential, parse_credential, verify_secret,
}
use drip_ex.Auth.Credentials.Tokens.{show-parse_credential}
use drip_ex.Auth.Authenticator.{
  invalidate_all, Authenticator, AuthError, Identity, CredentialStore, database_store, cached,
  read_store, check_client, find_credential, authenticate_credential, authenticate, invalidate,
}
use drip_ex.Admin.Resources.{
  Console, with_invalid, with_listing, ids_of, invalidate_client, invalidate_account,
  handle_update_account, handle_rotate_client,
}

pub shaped_token :
    (token : Bytes) (c : Credential) → parse_credential token ≡ ok c → is_credential token ≡ true
unfolding is_credential show_credential strip_prefix
shaped_token token c parsed =
    subst (λ t. is_credential t ≡ true) (show-parse_credential token c parsed).0 refl

-- A token of a credential that is not in the cache is judged by what the store holds.
authenticate_uncached :
    (hash : Bytes → Bytes) (now : ℕ) (store : CredentialStore) (token ip : Bytes) (c : Credential)
    (a : Authenticator)
    → parse_credential token ≡ ok c
    → lookup c.id a.cache ≡ none
    → (authenticate hash now (some store) token ip a).1
      ≡ (read_store store c.id >>= check_client hash c.secret)
unfolding authenticate authenticate_credential find_credential cached is_credential show_credential
    strip_prefix
authenticate_uncached hash now store token ip c a parsed absent =
    rw (shaped_token token c parsed, parsed, absent) (ground arith)

lookup-with_invalid_absent :
    (id : Bytes) (ids : List Bytes) (a a' : Authenticator)
    → with_invalid ids (some a) ≡ some a'
    → lookup id a.cache ≡ none
    → lookup id a'.cache ≡ none
unfolding invalidate
lookup-with_invalid_absent id [] a a' e h = ground arith
lookup-with_invalid_absent id (j ∷ ids) a a' e h =
    lookup-with_invalid_absent id ids (invalidate j a) a' e
      (lookup-delete j id a.cache ∙ ground arith)

lookup-with_invalid :
    (id : Bytes) (ids : List Bytes) (a a' : Authenticator)
    → with_invalid ids (some a) ≡ some a'
    → any (λ j. str_eq j id) ids ≡ true
    → lookup id a'.cache ≡ none
unfolding invalidate
lookup-with_invalid id [] a a' e h = cc
lookup-with_invalid id (j ∷ ids) a a' e h = elim (Bool-cases (str_eq j id)) [
  | inl here ↦
      lookup-with_invalid_absent id ids (invalidate j a) a' e
        (lookup-delete j id a.cache ∙ rw here refl)
  | inr other ↦ lookup-with_invalid id ids (invalidate j a) a' e (ground arith)
]

-- The credentials of an account are among those that are dropped.
any-ids_of :
    (id account : Bytes) (clients : List Client) (c : Client)
    → find? (is_client id) clients ≡ some c
    → str_eq c.account_id account ≡ true
    → any (λ j. str_eq j id) (ids_of (select (is_owned_by account) clients)) ≡ true
any-ids_of id account [] c e h = cc
any-ids_of id account (d ∷ clients) c e h = elim (Bool-cases (is_client id d)) [
  | inl here ↦
      let same : d ≡ c = ground arith in
      let owned : is_owned_by account d ≡ true =
        subst (λ t. is_owned_by account t ≡ true) (sym same) h in
      rw owned (ground arith)
  | inr other ↦ ground (arith, any-ids_of id account clients c)
]

module _ (hash : Bytes → Bytes) (later : ℕ) (token ip : Bytes) (cr : Credential)
    (parsed : parse_credential token ≡ ok cr) (c c' : Console) (a a' : Authenticator)
    (before : c.authenticator ≡ some a) (after : c'.authenticator ≡ some a') where
  -- What the server makes of the token after the change.
  abbrev pub answer : Result AuthError Identity
  answer = (authenticate hash later (some (database_store c'.database)) token ip a').1

  abbrev with_fields : Option Bytes → Option Bool → Option ℤ → Account → Account
  with_fields name enabled max_tunnels acc = record acc {
    name = or_default acc.name name;
    enabled = or_default acc.enabled enabled;
    max_tunnels = or_default acc.max_tunnels max_tunnels;
  }

  abbrev AccountParts : Bool → ℕ → Bytes → Option Bytes → Option Bool → Option ℤ → Type 0
  AccountParts lists now id name enabled max_tunnels =
      (acc : Account) × (find? (is_account id) c.database.accounts ≡ some acc)
      × (c'.database.clients ≡ c.database.clients)
      × (c'.database.accounts
          ≡ map (updated_account now (with_fields name enabled max_tunnels acc))
              c.database.accounts)
      × (c'.authenticator
          ≡ with_listing
              (if lists
                then some (ids_of (select (is_owned_by acc.id) c.database.clients))
                else none)
              c.authenticator)

  account_parts :
      (lists : Bool) (now : ℕ) (id : Bytes) (name : Option Bytes) (enabled : Option Bool)
      (max_tunnels : Option ℤ)
      → handle_update_account lists now id name enabled max_tunnels c ≡ ok c'
      → AccountParts lists now id name enabled max_tunnels
  unfolding handle_update_account get_account update_account invalidate_account
  account_parts lists now id name enabled max_tunnels e =
      by_row (find? (is_account id) c.database.accounts) refl
    where
      by_row :
          (found : Option Account)
          → find? (is_account id) c.database.accounts ≡ found
          → AccountParts lists now id name enabled max_tunnels
      by_row none missing = absurd (ground arith)
      by_row (some acc) found = (acc, found, ground arith, ground arith, ground arith)

  never_accepted :
      (client : Client) (acc : Account)
      → lookup cr.id a'.cache ≡ none
      → find? (is_client cr.id) c'.database.clients ≡ some client
      → find? (is_account client.account_id) c'.database.accounts ≡ some acc
      → (client.enabled && acc.enabled) ≡ false
      → (who : Identity) → answer ≢ ok who
  unfolding read_store check_client database_store get_client get_account
  never_accepted client acc absent row owner off who accepted =
      let judged =
        authenticate_uncached hash later (database_store c'.database) token ip cr a' parsed
          absent in
      let same = sym judged ∙ accepted in ground arith

  dropped_listing :
      (lists : Bool) (ids : List Bytes)
      → with_listing (if lists then some ids else none) (some a) ≡ some a'
      → any (λ j. str_eq j cr.id) ids ≡ true
      → lookup cr.id a'.cache ≡ none
  unfolding invalidate_all lookup
  dropped_listing true ids e listed = lookup-with_invalid cr.id ids a a' e listed
  dropped_listing false ids e listed = let empty : a'.cache ≡ [] = ground arith in rw empty refl

  -- From the moment that the panel has switched an account off, no token of a credential of this
  -- account registers a tunnel: neither the cache nor the store lets it in, also where the store
  -- could not list the credentials of the account and the whole cache was cleared.
  pub handle_update_account-Refuses :
      (lists : Bool) (now : ℕ) (id : Bytes) (name : Option Bytes) (max_tunnels : Option ℤ)
      (client : Client)
      → handle_update_account lists now id name (some false) max_tunnels c ≡ ok c'
      → get_client c.database cr.id ≡ ok client
      → client.account_id ≡ id
      → (who : Identity) → answer ≢ ok who
  unfolding get_client
  handle_update_account-Refuses lists now id name max_tunnels client e row mine who =
      let (acc, found, clients, accounts, dropped) =
        account_parts lists now id name (some false) max_tunnels e in
      let here : acc.id ≡ id =
        (str_eq_iff acc.id id).0
          (find-All (λ b. Unit {0}) (is_account id) c.database.accounts acc (All-units _)
            found).1 in
      let held : find? (is_client cr.id) c.database.clients ≡ some client = ground arith in
      let off = with_fields name (some false) max_tunnels acc in
      let absent : lookup cr.id a'.cache ≡ none =
        dropped_listing lists (ids_of (select (is_owned_by acc.id) c.database.clients))
          (ground arith)
          (any-ids_of cr.id acc.id c.database.clients client held
            (rw (mine, here) (str_eq_refl id))) in
      let owner : find? (is_account client.account_id) c'.database.accounts
          ≡ some (updated_account now off acc) =
        rw (mine, accounts)
          (find-map (updated_account now off) (is_account id) c.database.accounts
              (λ b. ground arith)
            ∙ rw found refl) in
      never_accepted client (updated_account now off acc) absent (rw clients held) owner
        (rw (str_eq_refl acc.id) (ground arith)) who

  -- The client's row after the change, where the credential is out of the cache.
  judged_by :
      (client : Client)
      → lookup cr.id a'.cache ≡ none
      → find? (is_client cr.id) c'.database.clients ≡ some client
      → (who : Identity) → answer ≡ ok who
      → (verify_secret hash cr.secret client.secret_hash ≡ true) × (client.enabled ≡ true)
  unfolding read_store check_client database_store get_client get_account
  judged_by client absent row who accepted =
      let judged =
        authenticate_uncached hash later (database_store c'.database) token ip cr a' parsed
          absent in
      let same = sym judged ∙ accepted in ground arith

  absent_after :
      (id : Bytes)
      → cr.id ≡ id
      → c'.authenticator ≡ with_invalid (id ∷ []) c.authenticator
      → lookup cr.id a'.cache ≡ none
  absent_after id mine dropped =
      lookup-with_invalid cr.id (id ∷ []) a a' (ground arith)
        (rw mine (ground (arith, str_eq_refl id)))

  abbrev RotateParts : ℕ → Credential → Bytes → Bytes → Type 0
  RotateParts now drawn id shown =
      (client : Client) × (find? (is_client id) c.database.clients ≡ some client)
      × (c'.database.clients
          ≡ map (with_secret now client.id (hash drawn.secret)) c.database.clients)
      × (c'.authenticator ≡ with_invalid (client.id ∷ []) c.authenticator)
      × (shown ≡ show_credential (record drawn { id = client.id }))

  rotate_parts :
      (now : ℕ) (drawn : Credential) (id shown : Bytes)
      → handle_rotate_client hash now drawn id c ≡ ok (c', shown)
      → RotateParts now drawn id shown
  unfolding handle_rotate_client get_client rotate_client_secret invalidate_client
  rotate_parts now drawn id shown e = by_row (find? (is_client id) c.database.clients) refl
    where
      by_row :
          (found : Option Client)
          → find? (is_client id) c.database.clients ≡ found
          → RotateParts now drawn id shown
      by_row none missing = absurd (ground arith)
      by_row (some client) found = (client, found, ground arith, ground arith, ground arith)

  -- From the moment that the panel has drawn a client a new secret, no token of the client with
  -- another secret registers a tunnel, where another is one that hashes otherwise. The panel shows
  -- the token of the new one.
  pub handle_rotate_client-Refuses :
      (now : ℕ) (drawn : Credential) (id shown : Bytes)
      → handle_rotate_client hash now drawn id c ≡ ok (c', shown)
      → cr.id ≡ id
      → (shown ≡ show_credential (record drawn { id = id }))
        × ((who : Identity) → answer ≡ ok who → hash cr.secret ≡ hash drawn.secret)
  unfolding verify_secret
  handle_rotate_client-Refuses now drawn id shown e mine =
      let (client, found, clients, dropped, token_shown) = rotate_parts now drawn id shown e in
      let here : client.id ≡ id =
        (str_eq_iff client.id id).0
          (find-All (λ b. Unit {0}) (is_client id) c.database.clients client (All-units _)
            found).1 in
      let row : find? (is_client cr.id) c'.database.clients
          ≡ some (with_secret now client.id (hash drawn.secret) client) =
        rw (mine, clients)
          (find-map (with_secret now client.id (hash drawn.secret)) (is_client id)
              c.database.clients (λ b. ground arith)
            ∙ rw found refl) in
      (
        token_shown ∙ ap (λ t. show_credential (record drawn { id = t })) here,
        λ who accepted.
            let (matches, on) =
              judged_by _ (absent_after client.id (mine ∙ sym here) dropped) row who accepted in
            (str_eq_iff (hash cr.secret) (hash drawn.secret)).0
              (ground (arith, str_eq_refl client.id)),
      )
