-- ===== src/Client/Supervisor.antt =====
-- The runner that keeps a tunnel with_assigned: internal/client/cli/tunnel_supervisor.go, with the tests
-- of errors in tunnel_runner.go. What an attempt comes to is an argument, and so is the random part
-- of a wait.
pub mod Backoff
use drip_ex.Base.{
  ltb, leb, ◌==◌, if◌then◌else◌, ==_iff, Bool-cases, and-eq-true, Option-cases, is_some, or_default,
  if_cases, length, get_or, set, take, drop, replicate, all, any, find?, select, All, length-append,
  length-set, get_or-set_self, get_or-set_ne, take-length_append, drop-length_append, Bytes, codes,
  str_eq, str_eq_iff, str_eq_refl, is_empty, is_empty_ne, ne_is_empty, is_upper, is_digit, is_space,
  lower_byte, upper_byte, to_lower, to_upper, trim_left, trim_space, strip_prefix, contains_byte,
  equal_fold, Map, lookup, insert, delete, lookup-insert, lookup-delete, Distinct, insert-Distinct,
  delete-Distinct, delete_absent, count, count-insert, count-replace, count-delete, tally,
  increment, decrement, tally-increment, tally-decrement, decrement-increment, Result, refuse_if,
  ◌>>=◌, ◌>>◌, >>=-eq-ok, ℤ, pos_part, neg_part, ◌≤ℤ◌, ltb_ℤ, NoClash, select-NoClash, All-map,
  All-weaken, All-select, any-All, All-any, All-both, All-units, any-map, any-select, map-NoClash,
  map-NoClash_pairs, find-All, find-select_kept, find-select_gone, find-map, find-NoClash, ok, err,
  pos, negsuc, ℕ, zero, suc, ◌+◌, ◌-◌, ◌*◌, ◌/◌, ◌%◌, ◌^◌, ◌≤◌, ◌<◌, min, bit_xor, String, ◌≡◌,
  refl, sym, ap, subst, ◌∙◌, ◌≢◌, ◌↔◌, ◌⊎◌, inl, inr, Bool, true, false, not, ◌&&◌, ◌||◌, Option,
  none, some, List, [], ◌∷◌, ◌++◌, map, arith, ℕ_discrete,
}

-- `strings.Contains`.
unfoldable pub contains : Bytes → Bytes → Bool
contains part [] = is_empty part
contains part (c ∷ s) = is_some (strip_prefix part (c ∷ s)) || contains part s

unfoldable pub is_non_retryable_error : Bytes → Bool
is_non_retryable_error message =
    contains (codes "subdomain is already taken") message
    || contains (codes "subdomain is reserved") message
    || contains (codes "invalid subdomain") message
    || contains (codes "authentication") message
    || contains (codes "Invalid authentication token") message

unfoldable pub is_configuration_error : Bytes → Bool
is_configuration_error message = contains (codes "server only supports") message

unfoldable pub is_fatal_tunnel_error : Bytes → Bool → Bool
is_fatal_tunnel_error message connected_once =
    if is_configuration_error message
    then true
    else if not (is_non_retryable_error message)
    then false
    else not (connected_once && contains (codes "already taken") message)

-- In nanoseconds.
abbrev pub min_backoff : ℕ
min_backoff = 3000000000

abbrev pub max_backoff : ℕ
max_backoff = 120000000000

unfoldable pub next_backoff : ℕ → ℕ
next_backoff current = if ltb max_backoff (current * 2) then max_backoff else current * 2

-- `drawn` is what `rand.Int63n` returns, below `2 * spread + 1`.
unfoldable pub jitter_backoff : ℕ → ℕ → ℕ
jitter_backoff backoff drawn =
    let spread = backoff / 5 in
    if spread == 0 then backoff else backoff - spread + drawn % (2 * spread + 1)

pub record Supervision : Type 0 where
  pub backoff : ℕ
  pub connected_once : Bool
  -- The name that the next attempt asks for.
  pub subdomain : Bytes

unfoldable pub supervision : Bytes → Supervision
supervision subdomain = record {
  backoff = min_backoff;
  connected_once = false;
  subdomain = subdomain;
}

-- An attempt fails with a message; or it connects under a name, and the connection is lost later,
-- perhaps after the server has asked the client to move.
pub data Attempt : Type 0 where
  refused : (message : Bytes) → Attempt
  served : (assigned : Bytes) → (rebind : Option Bytes) → Attempt

abbrev pub with_assigned : Bytes → Supervision → Supervision
with_assigned assigned s = record s {
  backoff = min_backoff;
  connected_once = true;
  subdomain = if is_empty assigned then s.subdomain else assigned;
}

abbrev pub rebound : Option Bytes → Supervision → Supervision
rebound none s = s
rebound (some target) s = record s { subdomain = target; backoff = min_backoff }

abbrev pub backed_off : Supervision → Supervision
backed_off s = record s { backoff = next_backoff s.backoff }

-- One turn of the loop of `superviseTunnel`: the wait before the next attempt, and the state then;
-- or the message that ends the tunnel.
unfoldable pub turn : ℕ → Attempt → Supervision → Result Bytes (ℕ × Supervision)
turn drawn (refused message) s =
    if is_fatal_tunnel_error message s.connected_once
    then err message
    else ok (jitter_backoff s.backoff drawn, backed_off s)
turn drawn (served assigned rebind) s =
    let lost = rebound rebind (with_assigned assigned s) in
    ok (jitter_backoff lost.backoff drawn, backed_off lost)

abbrev pub behind : ℕ → Result Bytes (List ℕ × Supervision) → Result Bytes (List ℕ × Supervision)
behind wait (err message) = err message
behind wait (ok (later, s)) = ok (wait ∷ later, s)

abbrev then_turns :
    (Supervision → Result Bytes (List ℕ × Supervision))
    → Result Bytes (ℕ × Supervision)
    → Result Bytes (List ℕ × Supervision)
then_turns rest (err message) = err message
then_turns rest (ok (wait, s)) = behind wait (rest s)

-- The waits of these turns, and the state after them, where none ends the tunnel.
unfoldable pub turns : List (ℕ × Attempt) → Supervision → Result Bytes (List ℕ × Supervision)
turns [] s = ok ([], s)
turns ((drawn, attempt) ∷ rest) s = then_turns (turns rest) (turn drawn attempt s)

-- `superviseTunnels`, once every tunnel has stopped: an error if all of them failed and the service
-- was not asked to stop. `none` is a tunnel that stopped without an error.
unfoldable pub failures : List (Option Bytes) → ℕ
failures [] = 0
failures (none ∷ rest) = failures rest
failures (some message ∷ rest) = suc (failures rest)

unfoldable pub supervise_tunnels : (cancelled : Bool) → List (Option Bytes) → Bool
supervise_tunnels cancelled outcomes =
    is_none outcomes || (not cancelled && failures outcomes == length outcomes)
  where
    is_none : List (Option Bytes) → Bool
    is_none [] = true
    is_none (o ∷ os) = false
