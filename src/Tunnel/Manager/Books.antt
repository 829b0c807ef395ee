-- ===== src/Tunnel/Manager/Books.antt =====
-- What the registry's counters mean.
use drip_ex.Base.{count as count_of}
use drip_ex.Base.{
  if◌then◌else◌, replicate, Bytes, str_eq, is_empty, lookup, tally, ℕ, zero, suc, ◌+◌, ◌≤◌, ◌<◌,
  ◌≡◌, refl, sym, ◌≢◌, Bool, true, false, not, ◌&&◌, [], arith,
}
use drip_ex.Tunnel.Shards.{Connection, total, empty_shard, shard_at}
use drip_ex.Tunnel.Shards.Counting.{IsSharded, empty-IsShard}
use drip_ex.Tunnel.Manager.{Manager, Owner, ManagerConfig, new_manager_with_config}

abbrev pub any_tunnel : Connection → Bool
any_tunnel c = true

abbrev pub of_account : Bytes → Connection → Bool
of_account a c = str_eq a c.account_id

-- A tunnel that took a slot of the address: no client is behind it.
abbrev pub unowned_from : Bytes → Connection → Bool
unowned_from ip c = is_empty c.client_id && str_eq ip c.remote_ip

-- The table is well formed, the global counter counts the tunnels and is within its cap, and each
-- account's counter counts the account's tunnels.
pub record IsValid (m : Manager) : Type 0 where
  pub sharded : IsSharded m.shards
  pub counted : m.tunnel_count ≡ total any_tunnel m.shards
  pub capped : m.tunnel_count ≤ m.max_tunnels
  pub accounts : (a : Bytes) → a ≢ [] → tally a m.tunnels_by_account ≡ total (of_account a) m.shards

-- The per-address counters stay within their cap, and never count a tunnel too many.
pub record HasIpBooks (m : Manager) : Type 0 where
  pub capped : (ip : Bytes) → tally ip m.tunnels_by_ip ≤ m.max_tunnels_per_ip
  pub backed : (ip : Bytes) → ip ≢ [] → tally ip m.tunnels_by_ip ≤ total (unowned_from ip) m.shards

-- The tables agree, but for the rate limiter.
pub record SameBooks (m m' : Manager) : Type 0 where
  pub shards : m'.shards ≡ m.shards
  pub count : m'.tunnel_count ≡ m.tunnel_count
  pub max_tunnels : m'.max_tunnels ≡ m.max_tunnels
  pub max_tunnels_per_ip : m'.max_tunnels_per_ip ≡ m.max_tunnels_per_ip
  pub accounts : (a : Bytes) → tally a m'.tunnels_by_account ≡ tally a m.tunnels_by_account
  pub ips : (ip : Bytes) → tally ip m'.tunnels_by_ip ≡ tally ip m.tunnels_by_ip

-- Slots taken for one registration that has no name yet; one of its address if `limited`.
pub record IsAdmitted (limited : Bool) (ip : Bytes) (owner : Owner) (m m' : Manager) : Type 0 where
  pub shards : m'.shards ≡ m.shards
  pub count : m'.tunnel_count ≡ m.tunnel_count + 1
  pub room : m.tunnel_count < m.max_tunnels
  pub max_tunnels : m'.max_tunnels ≡ m.max_tunnels
  pub max_tunnels_per_ip : m'.max_tunnels_per_ip ≡ m.max_tunnels_per_ip
  pub accounts :
      (a : Bytes)
      → tally a m'.tunnels_by_account
        ≡ (if not (is_empty owner.account_id) && str_eq owner.account_id a then 1 else 0)
          + tally a m.tunnels_by_account
  pub account_room :
      is_empty owner.account_id ≡ false
      → 0 < owner.max_tunnels
      → tally owner.account_id m.tunnels_by_account < owner.max_tunnels
  pub ips :
      (j : Bytes)
      → tally j m'.tunnels_by_ip
        ≡ (if limited && str_eq ip j then 1 else 0) + tally j m.tunnels_by_ip
  pub ip_room : limited ≡ true → tally ip m.tunnels_by_ip < m.max_tunnels_per_ip

total-replicate : (p : Connection → Bool) (n : ℕ) → total p (replicate n empty_shard) ≡ 0
unfolding total count_of
total-replicate p zero = refl
total-replicate p (suc n) = omega (arith, total-replicate p n)

empty_at : (n i : ℕ) → shard_at (replicate n empty_shard) i ≡ empty_shard
empty_at zero i = refl
empty_at (suc n) zero = refl
empty_at (suc n) (suc i) = empty_at n i

pub replicate-IsSharded : IsSharded (replicate 32 empty_shard)
replicate-IsSharded = record { size = refl; at = λ i. rw (empty_at 32 i) (empty-IsShard i) }

pub no_tunnels : (p : Connection → Bool) → total p (replicate 32 empty_shard) ≡ 0
no_tunnels p = total-replicate p 32

pub new-IsValid : (cfg : ManagerConfig) → IsValid (new_manager_with_config cfg)
unfolding new_manager_with_config lookup
new-IsValid cfg = record {
  sharded = replicate-IsSharded;
  counted = sym (no_tunnels any_tunnel);
  capped = omega arith;
  accounts = λ a ne. sym (no_tunnels (of_account a));
}

pub new-HasIpBooks : (cfg : ManagerConfig) → HasIpBooks (new_manager_with_config cfg)
unfolding new_manager_with_config lookup
new-HasIpBooks cfg = record { capped = λ ip. omega arith; backed = λ ip ne. omega arith }
