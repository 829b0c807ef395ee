-- ===== src/Tunnel/Manager.antt =====
-- internal/server/tunnel/manager.go. One call runs at a time, with one reading of the clock; random
-- numbers are an argument. Log lines, metrics and the write pump are left out.
pub mod Books
pub mod Admission
pub mod Registry
pub mod Validity
pub mod Caps
pub mod Stale
pub mod Undercount
pub mod Progress
use drip_ex.Base.{
  ltb, leb, ◌==◌, if◌then◌else◌, ==_iff, Bool-cases, and-eq-true, Option-cases, is_some, or_default,
  length, get_or, set, take, drop, replicate, all, any, find?, select, All, length-append,
  length-set, get_or-set_self, get_or-set_ne, take-length_append, drop-length_append, Bytes, codes,
  str_eq, str_eq_iff, str_eq_refl, is_empty, is_upper, is_digit, is_space, lower_byte, upper_byte,
  to_lower, to_upper, trim_left, trim_space, strip_prefix, contains_byte, equal_fold, Map, lookup,
  insert, delete, lookup-insert, lookup-delete, Distinct, insert-Distinct, delete-Distinct,
  delete_absent, count, count-insert, count-delete, tally, increment, decrement, tally-increment,
  tally-decrement, decrement-increment, Result, refuse_if, >>=-eq-ok, ℤ, pos_part, neg_part, ◌≤ℤ◌,
  ltb_ℤ, ok, err, pos, negsuc, ℕ, zero, suc, ◌+◌, ◌-◌, ◌*◌, ◌/◌, ◌%◌, ◌^◌, ◌≤◌, ◌<◌, min, bit_xor,
  String, ◌≡◌, refl, sym, ap, subst, ◌∙◌, ◌≢◌, ◌↔◌, ◌⊎◌, inl, inr, Bool, true, false, not, ◌&&◌,
  ◌||◌, Option, none, some, List, [], ◌∷◌, ◌++◌, map, arith, ℕ_discrete,
}
use drip_ex.Names.{validate_subdomain, is_reserved, generate_subdomain}
use drip_ex.Tunnel.RateLimiter.{
  RateLimiter, new_rate_limiter, check_and_increment, decrement_hits, cleanup,
}
use drip_ex.Tunnel.Shards.{
  Connection, Shard, empty_shard, num_shards, new_connection, get_shard, shard_at, is_used,
  put_tunnel, remove_tunnel, find,
}

pub record Owner : Type 0 where
  pub client_id : Bytes
  pub account_id : Bytes
  -- 0 means unlimited.
  pub max_tunnels : ℕ

abbrev pub is_identified : Owner → Bool
is_identified o = not (is_empty o.client_id)

abbrev pub anonymous : Owner
anonymous = record { client_id = []; account_id = []; max_tunnels = 0 }

pub record ManagerConfig : Type 0 where
  pub max_tunnels : ℤ
  pub max_tunnels_per_ip : ℤ
  pub rate_limit : ℤ
  pub rate_limit_window : ℤ

pub record Manager : Type 0 where
  pub shards : List Shard
  pub max_tunnels : ℕ
  pub max_tunnels_per_ip : ℕ
  pub tunnel_count : ℕ
  pub tunnels_by_ip : Map ℕ
  pub tunnels_by_account : Map ℕ
  pub rate_limiter : RateLimiter
  pub stopped : Bool

pub data Error : Type 0 where
  too_many_tunnels too_many_for_account rate_limit_exceeded too_many_per_ip : Error
  invalid_subdomain reserved_subdomain subdomain_taken subdomain_generation_failed : Error

-- A limit of 0 or less stands for the default.
abbrev pub limit_or : ℕ → ℤ → ℕ
limit_or d (pos zero) = d
limit_or d (pos (suc n)) = suc n
limit_or d (negsuc n) = d

abbrev pub default_max_tunnels : ℕ
default_max_tunnels = 1000

abbrev pub default_max_tunnels_per_ip : ℕ
default_max_tunnels_per_ip = 10

abbrev pub default_rate_limit : ℕ
default_rate_limit = 10

-- One minute in nanoseconds.
abbrev pub default_rate_limit_window : ℕ
default_rate_limit_window = 60000000000

unfoldable pub new_manager_with_config : ManagerConfig → Manager
unfolding new_rate_limiter
new_manager_with_config cfg = record {
  shards = replicate num_shards empty_shard;
  max_tunnels = limit_or default_max_tunnels cfg.max_tunnels;
  max_tunnels_per_ip = limit_or default_max_tunnels_per_ip cfg.max_tunnels_per_ip;
  tunnel_count = 0;
  tunnels_by_ip = [];
  tunnels_by_account = [];
  rate_limiter =
      new_rate_limiter (limit_or default_rate_limit cfg.rate_limit)
        (limit_or default_rate_limit_window cfg.rate_limit_window);
  stopped = false;
}

-- A step of registration: the new state, and a result or the error that ends the call.
abbrev pub Step : Type 0 → Type 0
Step A = Manager → Manager × Result Error A

-- A step's error ends the call, with the state that the step leaves.
abbrev pub pass_on :
    {A B : Type 0} → (A → Step B) → Manager × Result Error A → Manager × Result Error B
pass_on f (m, ok a) = f a m
pass_on f (m, err e) = (m, err e)

infixl 5 ◌>>=◌ ◌>>◌
abbrev pub ◌>>=◌ : {A B : Type 0} → Step A → (A → Step B) → Step B
◌>>=◌ s f m = pass_on f (s m)

abbrev pub ◌>>◌ : {B : Type 0} → Step (Unit {0}) → Step B → Step B
s >> k = s >>= λ _. k

unfoldable pub rollback_global : Manager → Manager
rollback_global m = record m { tunnel_count = m.tunnel_count - 1 }

unfoldable pub rollback_per_account : Owner → Manager → Manager
rollback_per_account owner m =
    if is_empty owner.account_id
    then m
    else record m { tunnels_by_account = decrement owner.account_id m.tunnels_by_account }

-- The per-IP cap and the rate limit apply to this registration.
unfoldable pub is_limited : Bytes → Owner → Bool
is_limited ip owner = not (is_empty ip) && not (is_identified owner)

unfoldable pub rollback_per_ip : Bytes → Owner → Manager → Manager
rollback_per_ip ip owner m =
    if is_limited ip owner then record m { tunnels_by_ip = decrement ip m.tunnels_by_ip } else m

-- The hit was taken if and only if the registration is limited.
unfoldable pub rollback_rate_limit : Bytes → Owner → Manager → Manager
rollback_rate_limit ip owner m =
    if is_limited ip owner then record m { rate_limiter = decrement_hits ip m.rate_limiter } else m

unfoldable pub rollback_all : Bytes → Owner → Manager → Manager
rollback_all ip owner m =
    rollback_global
      (rollback_per_account owner (rollback_per_ip ip owner (rollback_rate_limit ip owner m)))

unfoldable pub reserve_global : Step (Unit {0})
reserve_global m =
    if leb m.max_tunnels m.tunnel_count
    then (m, err too_many_tunnels)
    else (record m { tunnel_count = m.tunnel_count + 1 }, ok tt)

unfoldable pub reserve_account : Owner → Step (Unit {0})
reserve_account owner m =
    if is_empty owner.account_id
    then (m, ok tt)
    else if ltb 0 owner.max_tunnels
        && leb owner.max_tunnels (tally owner.account_id m.tunnels_by_account)
    then (rollback_global m, err too_many_for_account)
    else (record m { tunnels_by_account = increment owner.account_id m.tunnels_by_account }, ok tt)

unfoldable pub take_ip_slot : Bytes → Owner → Step (Unit {0})
take_ip_slot ip owner m =
    if leb m.max_tunnels_per_ip (tally ip m.tunnels_by_ip)
    then (
      rollback_global (rollback_per_account owner (rollback_rate_limit ip owner m)),
      err too_many_per_ip,
    )
    else (record m { tunnels_by_ip = increment ip m.tunnels_by_ip }, ok tt)

unfoldable pub reserve_ip : ℕ → Bytes → Owner → Step (Unit {0})
reserve_ip now ip owner m =
    if is_limited ip owner
    then (let (rl, passed) = check_and_increment now ip m.rate_limiter in
        let m' = record m { rate_limiter = rl } in
        if passed
        then take_ip_slot ip owner m'
        else (rollback_global (rollback_per_account owner m'), err rate_limit_exceeded))
    else (m, ok tt)

-- The slots of a registration, before it has a name.
unfoldable pub admit : ℕ → Bytes → Owner → Step (Unit {0})
admit now ip owner = do reserve_global; reserve_account owner; reserve_ip now ip owner

abbrev pub owned_connection : ℕ → Bytes → Owner → Bytes → Connection
owned_connection now ip owner name =
    let c = new_connection now name in
    record c { remote_ip = ip; client_id = owner.client_id; account_id = owner.account_id }

unfoldable pub register_subdomain : ℕ → Bytes → Owner → List Shard → Bytes → Option (List Shard)
register_subdomain now ip owner shards candidate =
    if is_used (get_shard shards candidate) candidate
    then none
    else some (put_tunnel shards candidate (owned_connection now ip owner candidate))

-- A loop over random names: `n` attempts are left, and the next one is attempt `i`.
unfoldable pub try_names :
    (ℕ → ℕ → ℕ) → (Bytes → Option (List Shard)) → ℕ → ℕ → ℕ → Option (Bytes × List Shard)
try_names rand place len zero i = none
try_names rand place len (suc n) i =
    let candidate = generate_subdomain len (rand i) in
    let rest = try_names rand place len n (i + 1) in
    let placed : Option (Bytes × List Shard) = elim (place candidate) [
      | none ↦ rest
      | some shards ↦ some (candidate, shards)
    ] in
    if is_reserved candidate then rest else placed

abbrev pub max_attempts : ℕ
max_attempts = 32

abbrev pub taken_or : Bytes → Option (List Shard) → Result Error (Bytes × List Shard)
taken_or name none = err subdomain_taken
taken_or name (some shards) = ok (name, shards)

unfoldable pub claim_custom :
    (Bytes → Option (List Shard)) → Bytes → Result Error (Bytes × List Shard)
claim_custom place name =
    if not (validate_subdomain name)
    then err invalid_subdomain
    else if is_reserved name
    then err reserved_subdomain
    else taken_or name (place name)

abbrev pub found_or :
    Option (Bytes × List Shard)
    → Result Error (Bytes × List Shard)
    → Result Error (Bytes × List Shard)
found_or none otherwise = otherwise
found_or (some claimed) otherwise = ok claimed

-- 32 names of 6 bytes, then 32 names of 8.
unfoldable pub claim_random :
    (ℕ → ℕ → ℕ) → (Bytes → Option (List Shard)) → Result Error (Bytes × List Shard)
claim_random rand place =
    found_or (try_names rand place 6 max_attempts 0) (
      found_or (try_names rand place 8 max_attempts max_attempts) (err subdomain_generation_failed))

unfoldable pub claim :
    (ℕ → ℕ → ℕ) → (Bytes → Option (List Shard)) → Bytes → Result Error (Bytes × List Shard)
claim rand place custom =
    if is_empty custom then claim_random rand place else claim_custom place custom

unfoldable pub settle : Bytes → Owner → Result Error (Bytes × List Shard) → Step Bytes
settle ip owner (ok (name, shards)) m = (record m { shards = shards }, ok name)
settle ip owner (err e) m = (rollback_all ip owner m, err e)

unfoldable pub name_tunnel : ℕ → (ℕ → ℕ → ℕ) → Bytes → Bytes → Owner → Step Bytes
unfolding settle
name_tunnel now rand custom ip owner m =
    settle ip owner (claim rand (register_subdomain now ip owner m.shards) custom) m

unfoldable pub register_owned : ℕ → (ℕ → ℕ → ℕ) → Bytes → Bytes → Owner → Step Bytes
register_owned now rand custom ip owner = do
  admit now ip owner
  name_tunnel now rand custom ip owner

unfoldable pub get : Manager → Bytes → Option Connection
get m name = find m.shards name

-- The books after a tunnel is gone from its shard.
unfoldable pub settle_account : Bytes → Manager → Manager
settle_account account m =
    if is_empty account
    then m
    else record m { tunnels_by_account = decrement account m.tunnels_by_account }

unfoldable pub settle_ip : Bytes → Manager → Manager
settle_ip ip m =
    if is_empty ip then m else record m { tunnels_by_ip = decrement ip m.tunnels_by_ip }

unfoldable pub unregister : Bytes → Manager → Manager
unregister name m = elim (find m.shards name) [
  | none ↦ m
  | some c ↦ settle_ip c.remote_ip (
      settle_account c.account_id
        (record m { shards = remove_tunnel m.shards name; tunnel_count = m.tunnel_count - 1 }))
]

abbrev pub is_alive : ℕ → ℕ → Connection → Bool
is_alive now timeout c = ltb (now - c.last_active) timeout

unfoldable pub stale_names : ℕ → ℕ → Map Connection → List Bytes
stale_names now timeout [] = []
stale_names now timeout ((name, c) ∷ m) =
    let rest = stale_names now timeout m in if is_alive now timeout c then rest else name ∷ rest

unfoldable pub unregister_all : List Bytes → Manager → Manager
unregister_all [] m = m
unregister_all (name ∷ names) m = unregister_all names (unregister name m)

-- The loop over the shards: `n` are left, and the next one is shard `i`.
unfoldable pub clean_shards : ℕ → ℕ → ℕ → ℕ → Manager × ℕ → Manager × ℕ
clean_shards now timeout zero i s = s
clean_shards now timeout (suc n) i (m, cleaned) =
    let stale = stale_names now timeout (shard_at m.shards i).tunnels in
    clean_shards now timeout n (i + 1) (unregister_all stale m, cleaned + length stale)

unfoldable pub cleanup_stale : ℕ → ℕ → Manager → Manager × ℕ
cleanup_stale now timeout m =
    let (m', cleaned) = clean_shards now timeout num_shards 0 (m, 0) in
    (record m' { rate_limiter = (cleanup now m'.rate_limiter).0 }, cleaned)

-- The second call changes nothing (`shutdownOnce`).
unfoldable pub shutdown : Manager → Manager
shutdown m = if m.stopped then m else record m {
  shards = replicate num_shards empty_shard;
  tunnels_by_account = [];
  tunnel_count = 0;
  stopped = true;
}
