-- ===== src/Tunnel/Shards.antt =====
-- The sharded table of internal/server/tunnel/manager.go: a fixed number of shards, picked by the
-- FNV-1a hash of the name, and the tunnel of internal/server/tunnel/connection.go that they hold.
pub mod Counting
use drip_ex.Base.{
  ltb, leb, ◌==◌, if◌then◌else◌, ==_iff, Bool-cases, and-eq-true, Option-cases, is_some, or_default,
  length, get_or, set, take, drop, replicate, all, any, find?, select, All, length-append,
  length-set, get_or-set_self, get_or-set_ne, take-length_append, drop-length_append, Bytes, codes,
  str_eq, str_eq_iff, str_eq_refl, is_empty, is_upper, is_digit, is_space, lower_byte, upper_byte,
  to_lower, to_upper, trim_left, trim_space, strip_prefix, contains_byte, equal_fold, Map, lookup,
  insert, delete, lookup-insert, lookup-delete, Distinct, insert-Distinct, delete-Distinct,
  delete_absent, count, count-insert, count-delete, tally, increment, decrement, tally-increment,
  tally-decrement, Result, ◌>>=◌, ◌>>◌, refuse_if, >>=-eq-ok, ℤ, pos_part, neg_part, ◌≤ℤ◌, ltb_ℤ,
  ok, err, pos, negsuc, ℕ, zero, suc, ◌+◌, ◌-◌, ◌*◌, ◌/◌, ◌%◌, ◌^◌, ◌≤◌, ◌<◌, min, bit_xor, String,
  ◌≡◌, refl, sym, ap, subst, ◌∙◌, ◌≢◌, ◌↔◌, ◌⊎◌, inl, inr, Bool, true, false, not, ◌&&◌, ◌||◌,
  Option, none, some, List, [], ◌∷◌, ◌++◌, map, arith,
}

pub record IpAccess : Type 0 where
  pub allow_ips : List Bytes
  pub deny_ips : List Bytes

pub record ProxyAuth : Type 0 where
  pub enabled : Bool
  pub auth_type : Bytes
  pub password : Bytes
  pub token : Bytes

-- The fields of `tunnel.Connection` that the registry and registration read or write.
pub record Connection : Type 0 where
  pub subdomain : Bytes
  pub remote_ip : Bytes
  pub client_id : Bytes
  pub account_id : Bytes
  pub last_active : ℕ
  pub closed : Bool
  pub tunnel_type : Bytes
  pub ip_access : Option IpAccess
  pub proxy_auth : Option ProxyAuth

unfoldable pub new_connection : ℕ → Bytes → Connection
new_connection now subdomain = record {
  subdomain = subdomain;
  remote_ip = [];
  client_id = [];
  account_id = [];
  last_active = now;
  closed = false;
  tunnel_type = [];
  ip_access = none;
  proxy_auth = none;
}

pub record Shard : Type 0 where
  pub tunnels : Map Connection
  pub used : Map Bool

abbrev pub empty_shard : Shard
empty_shard = record { tunnels = []; used = [] }

abbrev pub num_shards : ℕ
num_shards = 32

-- FNV-1a on 32 bits, as `hash/fnv` documents it.
unfoldable pub fnv32a : ℕ → Bytes → ℕ
fnv32a h [] = h
fnv32a h (c ∷ s) = fnv32a (bit_xor h c * 16777619 % 2 ^ 32) s

unfoldable pub shard_index : Bytes → ℕ
unfolding fnv32a
shard_index name = fnv32a 2166136261 name % num_shards

abbrev pub shard_at : List Shard → ℕ → Shard
shard_at shards i = get_or shards i empty_shard

abbrev pub get_shard : List Shard → Bytes → Shard
get_shard shards name = shard_at shards (shard_index name)

abbrev pub is_used : Shard → Bytes → Bool
is_used s name = or_default false (lookup name s.used)

unfoldable pub put_tunnel : List Shard → Bytes → Connection → List Shard
put_tunnel shards name c =
    let s = get_shard shards name in
    set shards (shard_index name)
      (record { tunnels = insert name c s.tunnels; used = insert name true s.used })

unfoldable pub remove_tunnel : List Shard → Bytes → List Shard
remove_tunnel shards name =
    let s = get_shard shards name in
    set shards (shard_index name)
      (record { tunnels = delete name s.tunnels; used = delete name s.used })

-- `shard.tunnels[name]`.
unfoldable pub find : List Shard → Bytes → Option Connection
find shards name = lookup name (get_shard shards name).tunnels

-- How many tunnels pass a test, over all shards.
unfoldable pub total : (Connection → Bool) → List Shard → ℕ
total p [] = 0
total p (s ∷ shards) = count p s.tunnels + total p shards
