-- ===== src/Tunnel/RateLimiter.antt =====
-- internal/server/tunnel/rate_limiter.go. The clock is an argument; times and windows are in
-- nanoseconds. Log lines and metrics are left out.
pub mod Windows
use drip_ex.Base.{
  ltb, leb, ◌==◌, if◌then◌else◌, ==_iff, Bool-cases, and-eq-true, Option-cases, is_some, or_default,
  length, get_or, set, take, drop, replicate, all, any, find?, select, All, length-append,
  length-set, get_or-set_self, get_or-set_ne, take-length_append, drop-length_append, Bytes, codes,
  str_eq, str_eq_iff, str_eq_refl, is_empty, is_upper, is_digit, is_space, lower_byte, upper_byte,
  to_lower, to_upper, trim_left, trim_space, strip_prefix, contains_byte, equal_fold, Map, lookup,
  insert, delete, lookup-insert, lookup-delete, Distinct, insert-Distinct, delete-Distinct,
  delete_absent, count, count-insert, count-delete, tally, increment, decrement, tally-increment,
  tally-decrement, Result, ◌>>=◌, ◌>>◌, refuse_if, >>=-eq-ok, ℤ, pos_part, neg_part, ◌≤ℤ◌, ltb_ℤ,
  ok, err, pos, negsuc, ℕ, zero, suc, ◌+◌, ◌-◌, ◌*◌, ◌/◌, ◌%◌, ◌^◌, ◌≤◌, ◌<◌, min, bit_xor, String,
  ◌≡◌, refl, sym, ap, subst, ◌∙◌, ◌≢◌, ◌↔◌, ◌⊎◌, inl, inr, Bool, true, false, not, ◌&&◌, ◌||◌,
  Option, none, some, List, [], ◌∷◌, ◌++◌, map, arith,
}

pub record RateLimitEntry : Type 0 where
  pub hits : ℕ
  pub window_end : ℕ

pub record RateLimiter : Type 0 where
  pub rate_limits : Map RateLimitEntry
  pub rate_limit : ℕ
  pub rate_limit_window : ℕ

unfoldable pub new_rate_limiter : ℕ → ℕ → RateLimiter
new_rate_limiter limit window = record {
  rate_limits = [];
  rate_limit = limit;
  rate_limit_window = window;
}

-- The entry of an address whose window is still open.
unfoldable pub open_entry : ℕ → Option RateLimitEntry → Option RateLimitEntry
open_entry now none = none
open_entry now (some entry) = if ltb entry.window_end now then none else some entry

abbrev with_entry : RateLimiter → Bytes → ℕ → ℕ → RateLimiter
with_entry rl ip hits window_end = record rl {
  rate_limits = insert ip (record { hits = hits; window_end = window_end }) rl.rate_limits;
}

abbrev count_hit : RateLimiter → Bytes → ℕ → Option RateLimitEntry → RateLimiter × Bool
count_hit rl ip now none = (with_entry rl ip 1 (now + rl.rate_limit_window), true)
count_hit rl ip now (some entry) =
    if leb rl.rate_limit entry.hits
    then (rl, false)
    else (with_entry rl ip (entry.hits + 1) entry.window_end, true)

unfoldable pub check_and_increment : ℕ → Bytes → RateLimiter → RateLimiter × Bool
unfolding open_entry
check_and_increment now ip rl =
    if is_empty ip
    then (rl, true)
    else count_hit rl ip now (open_entry now (lookup ip rl.rate_limits))

abbrev uncount_hit : RateLimiter → Bytes → Option RateLimitEntry → RateLimiter
uncount_hit rl ip none = rl
uncount_hit rl ip (some entry) =
    if entry.hits - 1 == 0
    then record rl { rate_limits = delete ip rl.rate_limits }
    else with_entry rl ip (entry.hits - 1) entry.window_end

-- `hits` stays at 0 where it is 0, and then the entry goes.
unfoldable pub decrement_hits : Bytes → RateLimiter → RateLimiter
decrement_hits ip rl = if is_empty ip then rl else uncount_hit rl ip (lookup ip rl.rate_limits)

unfoldable pub live_entries : ℕ → Map RateLimitEntry → Map RateLimitEntry
live_entries now [] = []
live_entries now ((ip, entry) ∷ m) =
    let rest = live_entries now m in if ltb entry.window_end now then rest else (ip, entry) ∷ rest

unfoldable pub cleanup : ℕ → RateLimiter → RateLimiter × ℕ
unfolding live_entries
cleanup now rl =
    let live = live_entries now rl.rate_limits in
    (record rl { rate_limits = live }, length rl.rate_limits - length live)
