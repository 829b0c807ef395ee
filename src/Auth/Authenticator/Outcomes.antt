-- ===== src/Auth/Authenticator/Outcomes.antt =====
-- Which tokens are let in without a stored credential.
use drip_ex.Base.{
  is_empty_ne, ne_is_empty, if◌then◌else◌, Bytes, str_eq_iff, is_empty, is_empty_ne, ne_is_empty,
  Result, ◌>>=◌, ok, err, ℕ, ◌≡◌, refl, ◌≢◌, ◌↔◌, Bool, true, false, Option, none, some, [], ◌∷◌,
  arith,
}
use drip_ex.Auth.Credentials.{Credential, CredentialError, is_credential, parse_credential}
use drip_ex.Store.Database.{Client, Account}
use drip_ex.Auth.Authenticator.{
  AuthError, legacy, anonymous, CredentialStore, Authenticator, check_client, with_credential,
  authenticate_credential, authenticate_shared, with_store, authenticate, find_credential,
}

-- A credential gives no other identity than a stored one.
check_client-stored :
    (hash : Bytes → Bytes) (secret : Bytes) (found : Result AuthError (Client × Account))
    → ((found >>= check_client hash secret) ≢ ok legacy)
      × ((found >>= check_client hash secret) ≢ ok anonymous)
unfolding check_client
check_client-stored hash secret (err reason) = (λ e. cc, λ e. cc)
check_client-stored hash secret (ok (c, b)) = (λ e. ground arith, λ e. ground arith)

with_store-stored :
    (hash : Bytes → Bytes) (now : ℕ) (token ip : Bytes) (a : Authenticator)
    (store : Option CredentialStore)
    → ((with_store hash now token ip a store).1 ≢ ok legacy)
      × ((with_store hash now token ip a store).1 ≢ ok anonymous)
unfolding authenticate_credential
with_store-stored hash now token ip a none = (λ e. cc, λ e. cc)
with_store-stored hash now token ip a (some store) = by_parsed (parse_credential token)
  where
    by_parsed :
        (parsed : Result CredentialError Credential)
        → ((with_credential hash now store ip a parsed).1 ≢ ok legacy)
          × ((with_credential hash now store ip a parsed).1 ≢ ok anonymous)
    by_parsed (err reason) = (λ e. cc, λ e. cc)
    by_parsed (ok c) = check_client-stored hash c.secret (find_credential now store c.id a).1

shared-legacy :
    (a : Authenticator) (token : Bytes)
    → (authenticate_shared a token ≡ ok legacy) ↔ ((a.legacy_token ≢ []) × (token ≡ a.legacy_token))
unfolding authenticate_shared
shared-legacy a token = (
  λ e. (
    is_empty_ne a.legacy_token (ground arith),
    (str_eq_iff token a.legacy_token).0 (ground arith),
  ),
  λ (h, k). rw (ne_is_empty a.legacy_token h, (str_eq_iff token a.legacy_token).1 k) refl,
)

shared-anonymous :
    (a : Authenticator) (token : Bytes)
    → (authenticate_shared a token ≡ ok anonymous)
      ↔ ((a.legacy_token ≡ []) × (a.allow_anonymous ≡ true))
unfolding authenticate_shared
shared-anonymous a token =
    (λ e. (empty_is a.legacy_token (ground arith), ground arith), λ (h, k). rw (h, k) refl)
  where
    empty_is : (s : Bytes) → is_empty s ≡ true → s ≡ []
    empty_is [] h = refl
    empty_is (c ∷ s) h = cc

-- A token is taken for the shared one if and only if it does not look like a credential and is the
-- shared token, which is set; and a client is let in without any check if and only if its token
-- does not look like a credential, no shared token is set, and anonymous clients are allowed.
-- This holds with a database and without one.
pub authenticate-shared_iff :
    (hash : Bytes → Bytes) (now : ℕ) (store : Option CredentialStore) (token ip : Bytes)
    (a : Authenticator)
    → (((authenticate hash now store token ip a).1 ≡ ok legacy)
        ↔ ((is_credential token ≡ false) × (a.legacy_token ≢ []) × (token ≡ a.legacy_token)))
      × (((authenticate hash now store token ip a).1 ≡ ok anonymous)
          ↔ ((is_credential token ≡ false) × (a.legacy_token ≡ []) × (a.allow_anonymous ≡ true)))
unfolding authenticate
authenticate-shared_iff hash now store token ip a = by_shape (is_credential token)
  where
    by_shape :
        (shaped : Bool)
        → let out =
            (if shaped
              then with_store hash now token ip a store
              else (a, authenticate_shared a token)).1 in
          ((out ≡ ok legacy)
            ↔ ((shaped ≡ false) × (a.legacy_token ≢ []) × (token ≡ a.legacy_token)))
          × ((out ≡ ok anonymous)
              ↔ ((shaped ≡ false) × (a.legacy_token ≡ []) × (a.allow_anonymous ≡ true)))
    by_shape true =
        let (no_legacy, no_anonymous) = with_store-stored hash now token ip a store in
        (
          (λ e. absurd (no_legacy e), λ (h, k, j). cc),
          (λ e. absurd (no_anonymous e), λ (h, k, j). cc),
        )
    by_shape false =
        let l = shared-legacy a token in
        let n = shared-anonymous a token in
        (
          (λ e. (refl, (l.0 e).0, (l.0 e).1), λ (h, k, j). l.1 (k, j)),
          (λ e. (refl, (n.0 e).0, (n.0 e).1), λ (h, k, j). n.1 (k, j)),
        )
