-- ===== src/Tunnel/Manager/Progress.antt =====
-- A registration that breaks no limit, for a name that is free, goes through.
use drip_ex.Base.{
  ltb, leb, Bool-cases, is_some, Bytes, is_empty, tally, Result, ok, err, ℕ, ◌+◌, ◌<◌, ◌≡◌, refl,
  sym, ap, subst, ◌∙◌, ◌⊎◌, inl, inr, true, false, ◌&&◌, none, [], ◌∷◌, arith,
}
use drip_ex.Names.{validate_subdomain, is_reserved}
use drip_ex.Tunnel.RateLimiter.{check_and_increment}
use drip_ex.Tunnel.Shards.{find, get_shard, is_used, shard_index}
use drip_ex.Tunnel.Shards.Counting.{IsSharded}
use drip_ex.Tunnel.Manager.{
  Manager, Owner, Error, is_limited, reserve_account, take_ip_slot, reserve_ip, admit,
  register_subdomain, claim_custom, claim, settle, name_tunnel, register_owned, get, pass_on,
}
use drip_ex.Tunnel.Manager.Books.{IsValid}
use drip_ex.Tunnel.Manager.Admission.{Outcome, admit-Outcome, reserve_global_free}

-- There is a slot of each kind that the registration takes, and the rate limiter lets it through.
pub record HasRoom (now : ℕ) (ip : Bytes) (owner : Owner) (m : Manager) : Type 0 where
  pub global : m.tunnel_count < m.max_tunnels
  pub account :
      (owner.max_tunnels ≡ 0) ⊎ (tally owner.account_id m.tunnels_by_account < owner.max_tunnels)
  pub address :
      is_limited ip owner ≡ true
      → ((check_and_increment now ip m.rate_limiter).1 ≡ true)
        × (tally ip m.tunnels_by_ip < m.max_tunnels_per_ip)

-- A step goes through, and leaves what the per-address step reads.
pub record IsPassed (m : Manager) (out : Manager × Result Error (Unit {0})) : Type 0 where
  pub passed : out.1 ≡ ok tt
  pub limiter : out.0.rate_limiter ≡ m.rate_limiter
  pub ips : out.0.tunnels_by_ip ≡ m.tunnels_by_ip
  pub cap : out.0.max_tunnels_per_ip ≡ m.max_tunnels_per_ip

reserve_account_ok :
    (owner : Owner) (m : Manager)
    → (owner.max_tunnels ≡ 0) ⊎ (tally owner.account_id m.tunnels_by_account < owner.max_tunnels)
    → IsPassed m (reserve_account owner m)
unfolding reserve_account
reserve_account_ok owner m room = elim (Bool-cases (is_empty owner.account_id)) [
  | inl e ↦ rw e (record { passed = refl; limiter = refl; ips = refl; cap = refl })
  | inr e ↦
      let free : (ltb 0 owner.max_tunnels
            && leb owner.max_tunnels (tally owner.account_id m.tunnels_by_account))
          ≡ false =
        ground arith in
      rw (e, free) (record { passed = refl; limiter = refl; ips = refl; cap = refl })
]

reserve_ip_ok :
    (now : ℕ) (ip : Bytes) (owner : Owner) (m : Manager)
    → (is_limited ip owner ≡ true
        → ((check_and_increment now ip m.rate_limiter).1 ≡ true)
          × (tally ip m.tunnels_by_ip < m.max_tunnels_per_ip))
    → (reserve_ip now ip owner m).1 ≡ ok tt
unfolding reserve_ip take_ip_slot
reserve_ip_ok now ip owner m room = elim (Bool-cases (is_limited ip owner)) [
  | inl counted ↦
      let (let_in, low) = room counted in
      let free : leb m.max_tunnels_per_ip (tally ip m.tunnels_by_ip) ≡ false = ground arith in
      rw (counted, let_in, free) refl
  | inr spared ↦ rw spared refl
]

then_reserve_ip_ok :
    (now : ℕ) (ip : Bytes) (owner : Owner) (m : Manager) (out : Manager × Result Error (Unit {0}))
    → IsPassed m out
    → (is_limited ip owner ≡ true
        → ((check_and_increment now ip m.rate_limiter).1 ≡ true)
          × (tally ip m.tunnels_by_ip < m.max_tunnels_per_ip))
    → (pass_on (λ _. reserve_ip now ip owner) out).1 ≡ ok tt
then_reserve_ip_ok now ip owner m (m', ok x) w room =
    reserve_ip_ok now ip owner m' (λ counted. rw (w.limiter, w.ips, w.cap) (room counted))
then_reserve_ip_ok now ip owner m (m', err e) w room = w.passed

admit_ok :
    (now : ℕ) (ip : Bytes) (owner : Owner) (m : Manager)
    → HasRoom now ip owner m
    → (admit now ip owner m).1 ≡ ok tt
unfolding admit
admit_ok now ip owner m room =
    let free : leb m.max_tunnels m.tunnel_count ≡ false = ground (arith, room.global) in
    rw (reserve_global_free m free) (
      then_reserve_ip_ok now ip owner (record m { tunnel_count = m.tunnel_count + 1 }) _
        (reserve_account_ok owner (record m { tunnel_count = m.tunnel_count + 1 }) room.account)
        room.address)

name_ok :
    (now : ℕ) (rand : ℕ → ℕ → ℕ) (name ip : Bytes) (owner : Owner) (m : Manager)
    → IsSharded m.shards
    → validate_subdomain name ≡ true
    → is_reserved name ≡ false
    → find m.shards name ≡ none
    → (name_tunnel now rand name ip owner m).1 ≡ ok name
unfolding name_tunnel claim claim_custom register_subdomain settle find validate_subdomain
name_ok now rand [] ip owner m w good allowed fresh = cc
name_ok now rand (c ∷ s) ip owner m w good allowed fresh =
    let name = c ∷ s in
    let unused : is_used (get_shard m.shards name) name ≡ false =
      (w.at (shard_index name)).marked name ∙ ap is_some fresh in
    rw (good, allowed, unused) refl

then_name_ok :
    (now : ℕ) (rand : ℕ → ℕ → ℕ) (name ip : Bytes) (owner : Owner) (m : Manager)
    (out : Manager × Result Error (Unit {0}))
    → Outcome (is_limited ip owner) ip owner m out
    → out.1 ≡ ok tt
    → IsSharded m.shards
    → validate_subdomain name ≡ true
    → is_reserved name ≡ false
    → find m.shards name ≡ none
    → (pass_on (λ _. name_tunnel now rand name ip owner) out).1 ≡ ok name
then_name_ok now rand name ip owner m (m', ok x) w e sharded good allowed fresh =
    name_ok now rand name ip owner m' (subst IsSharded (sym w.shards) sharded) good allowed
      (rw w.shards fresh)
then_name_ok now rand name ip owner m (m', err x) w e sharded good allowed fresh = cc

-- In a manager in order, a registration for a valid name that is not set aside and that no tunnel
-- has succeeds under that name, if there is a global slot, a slot of the account or no limit for
-- it, and, for a client without an id at an address that is not empty, a slot of the address and
-- a rate limiter that lets it through.
pub register_owned_succeeds :
    (now : ℕ) (rand : ℕ → ℕ → ℕ) (name ip : Bytes) (owner : Owner) (m : Manager)
    → IsValid m
    → HasRoom now ip owner m
    → validate_subdomain name ≡ true
    → is_reserved name ≡ false
    → get m name ≡ none
    → (register_owned now rand name ip owner m).1 ≡ ok name
unfolding register_owned get
register_owned_succeeds now rand name ip owner m valid room good allowed fresh =
    then_name_ok now rand name ip owner m _ (admit-Outcome now ip owner m)
      (admit_ok now ip owner m room) valid.sharded good allowed fresh
