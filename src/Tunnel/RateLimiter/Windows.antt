-- ===== src/Tunnel/RateLimiter/Windows.antt =====
-- What the limit means over any sequence of calls of the limiter, those of other addresses included.
use drip_ex.Base.{
  is_empty, ne_is_empty, ltb, leb, ◌==◌, if◌then◌else◌, Bool-cases, All, Bytes, str_eq, str_eq_iff,
  str_eq_refl, Map, lookup, delete, lookup-insert, lookup-delete, ℕ, ◌+◌, ◌-◌, ◌≤◌, ◌≡◌, refl, ◌≢◌,
  inl, inr, true, false, Bool, Option, ◌&&◌, none, some, List, [], ◌∷◌, arith,
}
use drip_ex.Tunnel.RateLimiter.{
  RateLimitEntry, RateLimiter, open_entry, with_entry, count_hit, check_and_increment, uncount_hit,
  decrement_hits, live_entries, cleanup,
}

-- The calls of the limiter, those that read the clock with its reading.
pub data Call : Type 0 where
  checks : (now : ℕ) → (ip : Bytes) → Call
  gives_back : (ip : Bytes) → Call
  cleans : (now : ℕ) → Call

unfoldable pub called : Call → RateLimiter → RateLimiter × Bool
called (checks now ip) rl = check_and_increment now ip rl
called (gives_back ip) rl = (decrement_hits ip rl, false)
called (cleans now) rl = ((cleanup now rl).0, false)

-- The call is one of the address.
abbrev pub is_of : Bytes → Call → Bool
is_of ip (checks now other) = str_eq other ip
is_of ip (gives_back other) = str_eq other ip
is_of ip (cleans now) = false

-- How many calls of the address are let through.
unfoldable pub granted : Bytes → RateLimiter → List Call → ℕ
granted ip rl [] = 0
granted ip rl (c ∷ calls) =
    let (rl', passed) = called c rl in
    (if passed && is_of ip c then 1 else 0) + granted ip rl' calls

-- The number of times that a call gives a hit of the address back.
abbrev pub returned : Bytes → Call → ℕ
returned ip (checks now other) = 0
returned ip (gives_back other) = if str_eq other ip then 1 else 0
returned ip (cleans now) = 0

unfoldable pub given_back : Bytes → List Call → ℕ
given_back ip [] = 0
given_back ip (c ∷ calls) = returned ip c + given_back ip calls

-- The clock reading of the call lies in the window.
abbrev pub IsWithin : ℕ → ℕ → Call → Type 0
IsWithin from until (checks now ip) = (from ≤ now) × (now ≤ until)
IsWithin from until (gives_back ip) = Unit
IsWithin from until (cleans now) = (from ≤ now) × (now ≤ until)

-- The hits of an entry that lasts until `until` at least; no entry has none.
abbrev Holds : ℕ → Option RateLimitEntry → ℕ → Type 0
Holds until none hits = hits ≡ 0
Holds until (some entry) hits = (entry.hits ≡ hits) × (until ≤ entry.window_end)

-- The entry of one address where calls are made for another.
check_apart :
    (now : ℕ) (other ip : Bytes) (rl : RateLimiter)
    → str_eq other ip ≡ false
    → lookup ip (check_and_increment now other rl).0.rate_limits ≡ lookup ip rl.rate_limits
unfolding check_and_increment
check_apart now other ip rl apart = by_found (open_entry now (lookup other rl.rate_limits))
  where
    by_found :
        (found : Option RateLimitEntry)
        → lookup ip
            (if is_empty other then (rl, true) else count_hit rl other now found).0.rate_limits
          ≡ lookup ip rl.rate_limits
    by_found none = ground (
      arith,
      lookup-insert other ip (record { hits = 1; window_end = now + rl.rate_limit_window })
          rl.rate_limits,
    )
    by_found (some entry) = ground (
      arith,
      lookup-insert other ip (record { hits = entry.hits + 1; window_end = entry.window_end })
          rl.rate_limits,
    )

decrement_apart :
    (other ip : Bytes) (rl : RateLimiter)
    → str_eq other ip ≡ false
    → lookup ip (decrement_hits other rl).rate_limits ≡ lookup ip rl.rate_limits
unfolding decrement_hits
decrement_apart other ip rl apart = by_found (lookup other rl.rate_limits)
  where
    by_found :
        (found : Option RateLimitEntry)
        → lookup ip (if is_empty other then rl else uncount_hit rl other found).rate_limits
          ≡ lookup ip rl.rate_limits
    by_found none = ground arith
    by_found (some entry) = ground (
      arith,
      lookup-delete other ip rl.rate_limits,
      lookup-insert other ip (record { hits = entry.hits - 1; window_end = entry.window_end })
          rl.rate_limits,
    )

called_limits :
    (c : Call) (rl : RateLimiter)
    → ((called c rl).0.rate_limit ≡ rl.rate_limit)
      × ((called c rl).0.rate_limit_window ≡ rl.rate_limit_window)
unfolding called check_and_increment decrement_hits cleanup
called_limits (checks now ip) rl = by_found (open_entry now (lookup ip rl.rate_limits))
  where
    by_found :
        (found : Option RateLimitEntry)
        → ((if is_empty ip then (rl, true) else count_hit rl ip now found).0.rate_limit
            ≡ rl.rate_limit)
          × ((if is_empty ip then (rl, true) else count_hit rl ip now found).0.rate_limit_window
              ≡ rl.rate_limit_window)
    by_found none = ground arith
    by_found (some entry) = ground arith
called_limits (gives_back ip) rl = by_found (lookup ip rl.rate_limits)
  where
    by_found :
        (found : Option RateLimitEntry)
        → ((if is_empty ip then rl else uncount_hit rl ip found).rate_limit ≡ rl.rate_limit)
          × ((if is_empty ip then rl else uncount_hit rl ip found).rate_limit_window
              ≡ rl.rate_limit_window)
    by_found none = ground arith
    by_found (some entry) = ground arith
called_limits (cleans now) rl = (refl, refl)

-- A cleanup leaves the windows that are still open.
live-Holds :
    (ip : Bytes) (now until hits : ℕ) (m : Map RateLimitEntry)
    → now ≤ until
    → Holds until (lookup ip m) hits
    → Holds until (lookup ip (live_entries now m)) hits
unfolding live_entries lookup
live-Holds ip now until hits [] by held = held
live-Holds ip now until hits ((other, entry) ∷ m) by held =
    pick (ltb entry.window_end now) refl (str_eq other ip) refl (live-Holds ip now until hits m by)
      held
  where
    pick :
        (gone : Bool)
        → ltb entry.window_end now ≡ gone
        → (same : Bool) → str_eq other ip ≡ same
        → (Holds until (lookup ip m) hits → Holds until (lookup ip (live_entries now m)) hits)
        → Holds until (if same then some entry else lookup ip m) hits
        → Holds until
            (lookup ip (if gone then live_entries now m else (other, entry) ∷ live_entries now m))
            hits
    pick true g true e rest h = absurd (ground arith)
    pick false g true e rest h = rw e h
    pick true g false e rest h = rest h
    pick false g false e rest h = rw e (rest h)

-- What a call of the address leaves of its hits, and whether it is let through.
abbrev Moves : Bytes → ℕ → ℕ → RateLimiter → RateLimiter × Bool → ℕ → Type 0
Moves ip until hits rl out back =
    (hits' : ℕ) × Holds until (lookup ip out.0.rate_limits) hits'
    × ((if out.1 then 1 else 0) + hits ≤ hits' + back)
    × (hits' ≤ rl.rate_limit)

module _ (ip : Bytes) (until hits : ℕ) (rl : RateLimiter) (ne : ip ≢ []) (lo : 1 ≤ rl.rate_limit)
    (hi : hits ≤ rl.rate_limit) (held : Holds until (lookup ip rl.rate_limits) hits) where
  entered :
      (hits' until' : ℕ)
      → until ≤ until'
      → Holds until (lookup ip (with_entry rl ip hits' until').rate_limits) hits'
  entered hits' until' late =
      rw
        (
          lookup-insert ip ip (record { hits = hits'; window_end = until' }) rl.rate_limits,
          str_eq_refl ip,
        )
        (refl, late)

  checked-Moves :
      (now : ℕ)
      → now ≤ until
      → until ≤ now + rl.rate_limit_window
      → Moves ip until hits rl (check_and_increment now ip rl) 0
  unfolding check_and_increment open_entry
  checked-Moves now by late = rw (ne_is_empty ip ne) (by_found (lookup ip rl.rate_limits) refl held)
    where
      by_room :
          (entry : RateLimitEntry) (full : Bool)
          → leb rl.rate_limit entry.hits ≡ full
          → lookup ip rl.rate_limits ≡ some entry
          → Holds until (some entry) hits
          → Moves ip until hits rl
              (if full
                then (rl, false)
                else (with_entry rl ip (entry.hits + 1) entry.window_end, true))
              0
      by_room entry true f e (h, last) = (hits, held, omega arith, hi)
      by_room entry false f e (h, last) = (
        entry.hits + 1,
        entered (entry.hits + 1) entry.window_end last,
        omega (arith, h),
        ground arith,
      )

      by_found :
          (found : Option RateLimitEntry)
          → lookup ip rl.rate_limits ≡ found
          → Holds until found hits
          → Moves ip until hits rl (count_hit rl ip now (open_entry now found)) 0
      by_found none e h = (1, entered 1 (now + rl.rate_limit_window) late, omega (arith, h), lo)
      by_found (some entry) e (h, last) =
          let still : ltb entry.window_end now ≡ false = ground arith in
          rw still (by_room entry _ refl e (h, last))

  given-Moves : Moves ip until hits rl (decrement_hits ip rl, false) 1
  unfolding decrement_hits
  given-Moves = rw (ne_is_empty ip ne) (by_found (lookup ip rl.rate_limits) refl held)
    where
      by_last :
          (entry : RateLimitEntry) (last : Bool)
          → (entry.hits - 1 == 0) ≡ last
          → Holds until (some entry) hits
          → Moves ip until hits rl
              (
                if last
                    then record rl { rate_limits = delete ip rl.rate_limits }
                    else with_entry rl ip (entry.hits - 1) entry.window_end,
                false,
              )
              1
      by_last entry true l (h, late) = (
        0,
        rw (lookup-delete ip ip rl.rate_limits, str_eq_refl ip) refl,
        ground arith,
        omega arith,
      )
      by_last entry false l (h, late) = (
        entry.hits - 1,
        entered (entry.hits - 1) entry.window_end late,
        omega (arith, h),
        omega (arith, h, hi),
      )

      by_found :
          (found : Option RateLimitEntry)
          → lookup ip rl.rate_limits ≡ found
          → Holds until found hits
          → Moves ip until hits rl (uncount_hit rl ip found, false) 1
      by_found none e h = (hits, held, omega arith, hi)
      by_found (some entry) e h = by_last entry _ refl h

step-Holds :
    (ip : Bytes) (from until hits : ℕ) (c : Call) (rl : RateLimiter)
    → ip ≢ []
    → 1 ≤ rl.rate_limit
    → until ≡ from + rl.rate_limit_window
    → hits ≤ rl.rate_limit
    → Holds until (lookup ip rl.rate_limits) hits
    → IsWithin from until c
    → Moves ip until hits rl ((called c rl).0, (called c rl).1 && is_of ip c) (returned ip c)
unfolding called cleanup
step-Holds ip from until hits (checks now other) rl ne lo long hi held by =
    elim (Bool-cases (str_eq other ip)) [
      | inl same ↦
          let e : other ≡ ip = (str_eq_iff other ip).0 same in
          let (hits', held', count, hi') =
            checked-Moves ip until hits rl ne lo hi held now by.1 (omega (arith, by.0, long)) in
          rw (same, e) (hits', held', ground (arith, count), hi')
      | inr apart ↦ rw apart (hits, rw (check_apart now other ip rl apart) held, ground arith, hi)
    ]
step-Holds ip from until hits (gives_back other) rl ne lo long hi held by =
    elim (Bool-cases (str_eq other ip)) [
      | inl same ↦
          let e : other ≡ ip = (str_eq_iff other ip).0 same in
          rw (same, e) (given-Moves ip until hits rl ne lo hi held)
      | inr apart ↦ rw apart (hits, rw (decrement_apart other ip rl apart) held, omega arith, hi)
    ]
step-Holds ip from until hits (cleans now) rl ne lo long hi held by =
    (hits, live-Holds ip now until hits rl.rate_limits by.1 held, omega arith, hi)

granted-le :
    (ip : Bytes) (from until hits : ℕ) (rl : RateLimiter) (calls : List Call)
    → ip ≢ []
    → 1 ≤ rl.rate_limit
    → until ≡ from + rl.rate_limit_window
    → hits ≤ rl.rate_limit
    → Holds until (lookup ip rl.rate_limits) hits
    → All (IsWithin from until) calls
    → granted ip rl calls + hits ≤ rl.rate_limit + given_back ip calls
unfolding granted given_back
granted-le ip from until hits rl [] ne lo long hi held all_by = omega (arith, hi)
granted-le ip from until hits rl (c ∷ calls) ne lo long hi held (by, all_by) =
    let (hits', held', count, hi') = step-Holds ip from until hits c rl ne lo long hi held by in
    let (limit, window) = called_limits c rl in
    let rest =
      granted-le ip from until hits' (called c rl).0 calls ne (omega (arith, lo, limit))
        (omega (arith, long, window)) (omega (arith, hi', limit)) held' all_by in
    omega (arith, count, rest, limit)

-- For an address that is not empty and a limit of at least 1: from a call that opens a window of the
-- address until the end of this window, whatever calls of the limiter run, those of other addresses
-- and cleanups included, the calls of the address that are let through, the opening one included,
-- are no more than the limit and the hits that the address gives back in that time.
pub granted-le-rate_limit :
    (ip : Bytes) (rl : RateLimiter) (now : ℕ) (calls : List Call)
    → ip ≢ []
    → 1 ≤ rl.rate_limit
    → open_entry now (lookup ip rl.rate_limits) ≡ none
    → All (IsWithin now (now + rl.rate_limit_window)) calls
    → granted ip rl (checks now ip ∷ calls) ≤ rl.rate_limit + given_back ip calls
unfolding granted called check_and_increment
granted-le-rate_limit ip rl now calls ne lo fresh within =
    let until : ℕ = now + rl.rate_limit_window in
    let rl' = with_entry rl ip 1 until in
    let rest =
      granted-le ip now until 1 rl' calls ne lo refl lo
        (rw
          (
            lookup-insert ip ip (record { hits = 1; window_end = until }) rl.rate_limits,
            str_eq_refl ip,
          )
          (refl, omega arith))
        within in
    rw (ne_is_empty ip ne, fresh, str_eq_refl ip) (omega (arith, rest))
