-- ===== src/Tunnel/Sections.antt =====
-- The calls of internal/server/tunnel/manager.go that run at the same time. `RegisterOwned` and
-- `Unregister` are cut where they take or leave a lock or touch an atomic counter: each section is
-- one step on the manager, and sections of different calls interleave in any order.
pub mod Steps
pub mod Balance
pub mod Reached
pub mod Weights
pub mod Ending
use drip_ex.Base.{
  ltb, leb, ◌==◌, if◌then◌else◌, ==_iff, Bool-cases, and-eq-true, Option-cases, is_some, or_default,
  length, get_or, set, take, drop, replicate, all, any, find?, select, All, length-append,
  length-set, get_or-set_self, get_or-set_ne, take-length_append, drop-length_append, Bytes, codes,
  str_eq, str_eq_iff, str_eq_refl, is_empty, is_empty_ne, ne_is_empty, is_upper, is_digit, is_space,
  lower_byte, upper_byte, to_lower, to_upper, trim_left, trim_space, strip_prefix, contains_byte,
  equal_fold, Map, lookup, insert, delete, lookup-insert, lookup-delete, Distinct, insert-Distinct,
  delete-Distinct, delete_absent, count, count-insert, count-replace, count-delete, tally,
  increment, decrement, tally-increment, tally-decrement, decrement-increment, Result, refuse_if,
  ◌>>=◌, ◌>>◌, >>=-eq-ok, ℤ, pos_part, neg_part, ◌≤ℤ◌, ltb_ℤ, NoClash, select-NoClash, All-map,
  All-weaken, All-select, any-All, All-any, All-both, All-units, any-map, any-select, map-NoClash,
  map-NoClash_pairs, ok, err, pos, negsuc, ℕ, zero, suc, ◌+◌, ◌-◌, ◌*◌, ◌/◌, ◌%◌, ◌^◌, ◌≤◌, ◌<◌,
  min, bit_xor, String, ◌≡◌, refl, sym, ap, subst, ◌∙◌, ◌≢◌, ◌↔◌, ◌⊎◌, inl, inr, Bool, true, false,
  not, ◌&&◌, ◌||◌, Option, none, some, List, [], ◌∷◌, ◌++◌, map, arith, ℕ_discrete,
}
use drip_ex.Names.{validate_subdomain, is_reserved, generate_subdomain}
use drip_ex.Tunnel.RateLimiter.{RateLimiter, check_and_increment, decrement_hits}
use drip_ex.Tunnel.Shards.{Connection, Shard, remove_tunnel, find}
use drip_ex.Tunnel.Manager.{
  Manager, Owner, is_limited, max_attempts, register_subdomain, rollback_global, settle_account,
  settle_ip,
}

pub record Registrant : Type 0 where
  pub custom : Bytes
  pub ip : Bytes
  pub owner : Owner

-- What a call still has to give back.
pub data Debt : Type 0 where
  owe_global : Debt
  owe_account owe_ip owe_rate : Bytes → Debt

-- Where a call stands: before a section of a registration, before the removal of a tunnel, or with
-- nothing left but to give back what it holds.
pub data Task : Type 0 where
  entering at_account at_rate at_ip : Registrant → Task
  -- With the value of the global counter that was loaded.
  at_swap : Registrant → ℕ → Task
  -- With the number of names that were tried.
  at_name : Registrant → ℕ → Task
  leaving : Bytes → Task
  paying : List Debt → Task

unfoldable pub pay : Debt → Manager → Manager
pay owe_global m = rollback_global m
pay (owe_account account) m = settle_account account m
pay (owe_ip ip) m = settle_ip ip m
pay (owe_rate ip) m = record m { rate_limiter = decrement_hits ip m.rate_limiter }

-- What a registration with all its slots gives back, in this order.
abbrev pub all_debts : Registrant → List Debt
all_debts r =
    if is_limited r.ip r.owner
    then owe_rate r.ip ∷ owe_ip r.ip ∷ owe_account r.owner.account_id ∷ owe_global ∷ []
    else owe_account r.owner.account_id ∷ owe_global ∷ []

-- A round of the compare-and-swap loop loads the counter, and swaps it where it is as it was loaded;
-- where another call has changed it, the next round begins.
unfoldable pub load : Registrant → Manager → Manager × Task
load r m =
    if leb m.max_tunnels m.tunnel_count then (m, paying []) else (m, at_swap r m.tunnel_count)

unfoldable pub swap : Registrant → ℕ → Manager → Manager × Task
swap r loaded m =
    if m.tunnel_count == loaded
    then (record m { tunnel_count = loaded + 1 }, at_account r)
    else (m, entering r)

unfoldable pub take_account : Registrant → Manager → Manager × Task
take_account r m =
    if is_empty r.owner.account_id
    then (m, at_rate r)
    else if ltb 0 r.owner.max_tunnels
        && leb r.owner.max_tunnels (tally r.owner.account_id m.tunnels_by_account)
    then (m, paying (owe_global ∷ []))
    else (
      record m { tunnels_by_account = increment r.owner.account_id m.tunnels_by_account },
      at_rate r,
    )

abbrev pub rate_passed : Registrant → Manager → RateLimiter × Bool → Manager × Task
rate_passed r m (rl, passed) =
    if passed
    then (record m { rate_limiter = rl }, at_ip r)
    else (record m { rate_limiter = rl }, paying (owe_account r.owner.account_id ∷ owe_global ∷ []))

unfoldable pub take_rate : ℕ → Registrant → Manager → Manager × Task
take_rate now r m =
    if is_limited r.ip r.owner
    then rate_passed r m (check_and_increment now r.ip m.rate_limiter)
    else (m, at_name r 0)

unfoldable pub take_ip : Registrant → Manager → Manager × Task
take_ip r m =
    if leb m.max_tunnels_per_ip (tally r.ip m.tunnels_by_ip)
    then (m, paying (owe_rate r.ip ∷ owe_account r.owner.account_id ∷ owe_global ∷ []))
    else (record m { tunnels_by_ip = increment r.ip m.tunnels_by_ip }, at_name r 0)

-- `registerSubdomain` under the lock of the name's shard, and what comes where the name is taken.
abbrev pub placed_or : Manager → Task → Option (List Shard) → Manager × Task
placed_or m next none = (m, next)
placed_or m next (some shards) = (record m { shards = shards }, paying [])

-- A random name of 6 bytes in the first 32 attempts, and of 8 in the next 32.
abbrev pub candidate : (ℕ → ℕ → ℕ) → ℕ → Bytes
candidate rand tried = generate_subdomain (if ltb tried max_attempts then 6 else 8) (rand tried)

unfoldable pub take_name : ℕ → (ℕ → ℕ → ℕ) → Registrant → ℕ → Manager → Manager × Task
take_name now rand r tried m =
    if not (is_empty r.custom)
    then (if not (validate_subdomain r.custom) || is_reserved r.custom
        then (m, paying (all_debts r))
        else placed_or m (paying (all_debts r))
            (register_subdomain now r.ip r.owner m.shards r.custom))
    else if leb (max_attempts + max_attempts) tried
    then (m, paying (all_debts r))
    else if is_reserved (candidate rand tried)
    then (m, at_name r (tried + 1))
    else placed_or m (at_name r (tried + 1))
        (register_subdomain now r.ip r.owner m.shards (candidate rand tried))

abbrev pub left : Manager → Bytes → Option Connection → Manager × Task
left m name none = (m, paying [])
left m name (some c) = (
  record m { shards = remove_tunnel m.shards name },
  paying (owe_global ∷ owe_account c.account_id ∷ owe_ip c.remote_ip ∷ []),
)

-- `Unregister` up to the counters.
unfoldable pub leave : Bytes → Manager → Manager × Task
leave name m = left m name (find m.shards name)

-- The next section of a call, with its clock reading and its random numbers.
unfoldable pub section : ℕ → (ℕ → ℕ → ℕ) → Task → Manager → Manager × Task
section now rand (entering r) m = load r m
section now rand (at_swap r loaded) m = swap r loaded m
section now rand (at_account r) m = take_account r m
section now rand (at_rate r) m = take_rate now r m
section now rand (at_ip r) m = take_ip r m
section now rand (at_name r tried) m = take_name now rand r tried m
section now rand (leaving name) m = leave name m
section now rand (paying []) m = (m, paying [])
section now rand (paying (d ∷ debts)) m = (pay d m, paying debts)
