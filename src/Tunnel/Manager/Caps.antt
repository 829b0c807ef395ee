-- ===== src/Tunnel/Manager/Caps.antt =====
-- What a successful registration means for its caller and for the others.
use drip_ex.Base.{
  if◌then◌else◌, Bytes, str_eq, str_eq_refl, tally, ok, err, ℕ, ◌≤◌, ◌<◌, ◌≡◌, ap, subst, ◌≢◌, none,
  some, [], arith,
}
use drip_ex.Tunnel.Shards.{find, total}
use drip_ex.Tunnel.Shards.Counting.{find-put}
use drip_ex.Tunnel.Manager.{Manager, Owner, Error, owned_connection, register_owned, get}
use drip_ex.Tunnel.Manager.Books.{of_account, IsValid, SameBooks}
use drip_ex.Tunnel.Manager.Registry.{IsRandom, IsRegistered, Registration, register-Registration}
use drip_ex.Tunnel.Manager.Validity.{IsRegistered-IsValid, is_empty_iff}

module _ (now : ℕ) (rand : ℕ → ℕ → ℕ) (custom ip : Bytes) (owner : Owner) (m m' : Manager)
    (random : IsRandom rand) (valid : IsValid m) where
  register_ok :
      (name : Bytes)
      → register_owned now rand custom ip owner m ≡ (m', ok name)
      → IsRegistered now ip owner m m' name
  register_ok name e =
      subst (Registration now ip owner m) e
        (register-Registration now ip owner rand custom m random valid.sharded)

  register_err :
      (e : Error) → register_owned now rand custom ip owner m ≡ (m', err e) → SameBooks m m'
  register_err e p =
      subst (Registration now ip owner m) p
        (register-Registration now ip owner rand custom m random valid.sharded)

  -- From a manager in order, and with random numbers below 36, a registration that succeeds gives
  -- a name that no tunnel had; from then on that name finds a tunnel of the caller's address,
  -- client and account, and every other name finds what it found before.
  pub get-register_owned :
      (name j : Bytes)
      → register_owned now rand custom ip owner m ≡ (m', ok name)
      → (get m name ≡ none)
        × (get m' j
            ≡ (if str_eq name j then some (owned_connection now ip owner name) else get m j))
  unfolding get
  get-register_owned name j e =
      let r = register_ok name e in
      (r.claimed.fresh, rw r.claimed.placed (find-put m.shards name j _ valid.sharded))

  -- From a manager in order, and with random numbers below 36, a registration that fails leaves
  -- every name, the global counter and the counters of all accounts and addresses as they were.
  pub register_owned_err :
      (e : Error)
      → register_owned now rand custom ip owner m ≡ (m', err e)
      → ((j : Bytes) → get m' j ≡ get m j)
        × (m'.tunnel_count ≡ m.tunnel_count)
        × ((a : Bytes) → tally a m'.tunnels_by_account ≡ tally a m.tunnels_by_account)
        × ((j : Bytes) → tally j m'.tunnels_by_ip ≡ tally j m.tunnels_by_ip)
  unfolding get
  register_owned_err e p =
      let s = register_err e p in (λ j. ap (λ t. find t j) s.shards, s.count, s.accounts, s.ips)

  -- From a manager in order, and with random numbers below 36, after a registration that succeeds
  -- for an account with a limit, the account has at most that many tunnels.
  pub account_limit :
      (name : Bytes)
      → owner.account_id ≢ []
      → 0 < owner.max_tunnels
      → register_owned now rand custom ip owner m ≡ (m', ok name)
      → total (of_account owner.account_id) m'.shards ≤ owner.max_tunnels
  account_limit name ne lim e =
      let r = register_ok name e in
      let v' = IsRegistered-IsValid now ip owner m m' name r valid in
      ground (
        arith,
        v'.accounts owner.account_id ne,
        r.admitted.accounts owner.account_id,
        r.admitted.account_room,
        str_eq_refl owner.account_id,
        is_empty_iff owner.account_id,
      )
