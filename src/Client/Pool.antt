-- ===== src/Client/Pool.antt =====
-- The sessions that a client keeps open to the server: internal/client/tcp/pool_session.go,
-- session_scaler.go and the sizes of pool_client.go. What a handshake comes to is an argument; the
-- loads that the code compares as floats are compared as fractions, which is the same for the
-- capacities that occur.
pub mod Bounds
use drip_ex.Base.{
  ltb, leb, ◌==◌, if◌then◌else◌, ==_iff, Bool-cases, and-eq-true, Option-cases, is_some, or_default,
  if_cases, length, get_or, set, take, drop, replicate, all, any, find?, select, All, length-append,
  length-set, get_or-set_self, get_or-set_ne, take-length_append, drop-length_append, Bytes, codes,
  str_eq, str_eq_iff, str_eq_refl, is_empty, is_empty_ne, ne_is_empty, is_upper, is_digit, is_space,
  lower_byte, upper_byte, to_lower, to_upper, trim_left, trim_space, strip_prefix, contains_byte,
  equal_fold, Map, lookup, insert, delete, lookup-insert, lookup-delete, Distinct, insert-Distinct,
  delete-Distinct, delete_absent, count, count-insert, count-replace, count-delete, tally,
  increment, decrement, tally-increment, tally-decrement, decrement-increment, Result, refuse_if,
  ◌>>=◌, ◌>>◌, >>=-eq-ok, ℤ, pos_part, neg_part, ◌≤ℤ◌, ltb_ℤ, NoClash, select-NoClash, All-map,
  All-weaken, All-select, any-All, All-any, All-both, All-units, any-map, any-select, map-NoClash,
  map-NoClash_pairs, find-All, find-select_kept, find-select_gone, find-map, find-NoClash, ok, err,
  pos, negsuc, ℕ, zero, suc, ◌+◌, ◌-◌, ◌*◌, ◌/◌, ◌%◌, ◌^◌, ◌≤◌, ◌<◌, min, bit_xor, String, ◌≡◌,
  refl, sym, ap, subst, ◌∙◌, ◌≢◌, ◌↔◌, ◌⊎◌, inl, inr, Bool, true, false, not, ◌&&◌, ◌||◌, Option,
  none, some, List, [], ◌∷◌, ◌++◌, map, arith, ℕ_discrete,
}

pub record SessionHandle : Type 0 where
  pub id : Bytes
  pub active : ℕ
  pub last_active : ℕ

pub record Pool : Type 0 where
  pub primary : Bool
  pub data_sessions : List SessionHandle
  pub pending_sessions : ℕ
  pub min_sessions : ℕ
  pub max_sessions : ℕ
  pub initial_sessions : ℕ
  -- 0 if the scaler has not set it yet.
  pub desired_total : ℕ
  -- In nanoseconds; 0 is the zero time.
  pub last_scale : ℕ
  pub closed : Bool

-- A size that is configured, or the default.
abbrev pub or_size : ℕ → ℤ → ℕ
or_size d (pos zero) = d
or_size d (pos (suc n)) = suc n
or_size d (negsuc n) = d

abbrev pub max_of : ℕ → ℕ → ℕ
max_of a b = if ltb a b then b else a

abbrev pub min_of : ℕ → ℕ → ℕ
min_of a b = if ltb b a then b else a

unfoldable pub new_pool : (num_cpu : ℕ) → (pool_min pool_max pool_size : ℤ) → Pool
new_pool num_cpu pool_min pool_max pool_size =
    let least = or_size 2 pool_min in
    let most = max_of (or_size (max_of (num_cpu * 16) least) pool_max) least in
    record {
      primary = false;
      data_sessions = [];
      pending_sessions = 0;
      min_sessions = least;
      max_sessions = most;
      initial_sessions = min_of (max_of (or_size 4 pool_size) least) most;
      desired_total = 0;
      last_scale = 0;
      closed = false;
    }

unfoldable pub session_count : Pool → ℕ
session_count p = length p.data_sessions + p.pending_sessions + (if p.primary then 1 else 0)

-- `none` is an error: the client is closed, or has its most sessions.
unfoldable pub reserve_session_slot : Pool → Option Pool
reserve_session_slot p =
    if p.closed
    then none
    else if leb p.max_sessions (session_count p)
    then none
    else some (record p { pending_sessions = p.pending_sessions + 1 })

unfoldable pub release_session_slot : Pool → Pool
release_session_slot p = record p { pending_sessions = p.pending_sessions - 1 }

-- The end of `addDataSession` after a handshake: a session of the id, or nothing where it failed
-- or the client was closed meanwhile.
unfoldable pub settle_data_session : ℕ → Option Bytes → Pool → Pool
settle_data_session now none p = release_session_slot p
settle_data_session now (some id) p = if p.closed then release_session_slot p else record p {
  pending_sessions = p.pending_sessions - 1;
  data_sessions =
      record { id = id; active = 0; last_active = now }
      ∷ select (λ s. not (str_eq s.id id)) p.data_sessions;
}

abbrev settle_reserved : ℕ → Option Bytes → Pool → Option Pool → Pool
settle_reserved now outcome p none = p
settle_reserved now outcome p (some reserved) = settle_data_session now outcome reserved

unfoldable pub add_data_session : ℕ → Option Bytes → Pool → Pool
add_data_session now outcome p = settle_reserved now outcome p (reserve_session_slot p)

unfoldable pub add_data_sessions : ℕ → List (Option Bytes) → Pool → Pool
add_data_sessions now [] p = p
add_data_sessions now (outcome ∷ rest) p =
    add_data_sessions now rest (add_data_session now outcome p)

unfoldable pub remove_data_session : Bytes → Pool → Pool
remove_data_session id p = record p {
  data_sessions = select (λ s. not (str_eq s.id id)) p.data_sessions;
}

abbrev pub better : SessionHandle → Option SessionHandle → Option SessionHandle
better s none = some s
better s (some best) = if ltb best.last_active s.last_active then some best else some s

-- The candidate among the idle sessions that has been idle the longest.
unfoldable pub idle_candidate : List SessionHandle → Option SessionHandle
idle_candidate [] = none
idle_candidate (s ∷ rest) =
    let best = idle_candidate rest in if s.active == 0 then better s best else best

abbrev without_candidate : Pool → Option SessionHandle → Pool
without_candidate p none = p
without_candidate p (some s) = remove_data_session s.id p

-- `removeIdleSessions(1)`.
unfoldable pub remove_idle_session : Pool → Pool
remove_idle_session p = without_candidate p (idle_candidate p.data_sessions)

abbrev pub capacity_per_session : ℕ
capacity_per_session = 256

abbrev pub scale_up_cooldown : ℕ
scale_up_cooldown = 1000000000

abbrev pub scale_down_cooldown : ℕ
scale_down_cooldown = 60000000000

abbrev pub max_burst_add : ℕ
max_burst_add = 4

unfoldable pub rescaled : ℕ → ℕ → Pool → Pool
rescaled now desired p = record p { desired_total = desired; last_scale = now }

-- The total that is wanted, from its start on.
abbrev pub desired_of : Pool → ℕ
desired_of p = if p.desired_total == 0 then p.initial_sessions else p.desired_total

abbrev pub started : Pool → Pool
started p = record p { desired_total = desired_of p }

-- A burst: the adds that there is room for. `outcomes` has one entry for each of them.
unfoldable pub burst : ℕ → List (Option Bytes) → Pool → Pool
burst now outcomes p =
    let added = min_of max_burst_add (p.max_sessions - session_count p) in
    rescaled now (session_count p + added) (add_data_sessions now (take added outcomes) p)

unfoldable pub scale_up : ℕ → List (Option Bytes) → Pool → Pool
scale_up now outcomes p =
    let desired = min_of (p.desired_total + 1) p.max_sessions in
    if ltb (now - p.last_scale) scale_up_cooldown
    then p
    else if ltb p.desired_total desired
    then rescaled now desired (add_data_sessions now (take 1 outcomes) p)
    else p

unfoldable pub scale_down : ℕ → Pool → Pool
scale_down now p =
    let desired = max_of (p.desired_total - 1) p.min_sessions in
    if ltb (now - p.last_scale) scale_down_cooldown
    then p
    else if ltb desired p.desired_total && ltb desired (session_count p)
    then rescaled now desired (remove_idle_session p)
    else p

unfoldable pub rescale : ℕ → ℕ → List (Option Bytes) → Pool → Pool
rescale now active outcomes p =
    let current = session_count p in
    let capacity = current * capacity_per_session in
    if current == 0
    then p
    else if ltb (9 * capacity) (10 * active) && ltb current p.max_sessions
    then burst now outcomes p
    else if ltb (6 * capacity) (10 * active) && ltb current p.max_sessions
    then scale_up now outcomes p
    else if ltb (10 * active) (2 * capacity) && ltb p.min_sessions current
    then scale_down now p
    else p

-- One tick of `scalerLoop`, with `active` connections.
unfoldable pub tick : ℕ → ℕ → List (Option Bytes) → Pool → Pool
tick now active outcomes p = rescale now active outcomes (started p)

-- `Connect`, once the server has taken the primary connection.
unfoldable pub connect_primary : Pool → Pool
connect_primary p = record p { primary = true; desired_total = p.initial_sessions }

unfoldable pub close_pool : Pool → Pool
close_pool p =
    if p.closed then p else record p { closed = true; data_sessions = []; primary = false }
