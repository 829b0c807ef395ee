-- ===== src/Tcp/Ports.antt =====
-- internal/server/tcp/port_allocator.go. A Go map is a function: `used` has the ports that are
-- handed out, `listeners` those whose listener is still held. Whether the system lets the server
-- listen, and the random numbers, are arguments; each attempt has its own.
pub mod Held
use drip_ex.Base.{
  ltb, leb, ◌==◌, if◌then◌else◌, ==_iff, Bool-cases, and-eq-true, Option-cases, is_some, or_default,
  length, get_or, set, take, drop, replicate, all, any, find?, select, All, length-append,
  length-set, get_or-set_self, get_or-set_ne, take-length_append, drop-length_append, Bytes, codes,
  str_eq, str_eq_iff, str_eq_refl, is_empty, is_upper, is_digit, is_space, lower_byte, upper_byte,
  to_lower, to_upper, trim_left, trim_space, strip_prefix, contains_byte, equal_fold, Map, lookup,
  insert, delete, lookup-insert, lookup-delete, Distinct, insert-Distinct, delete-Distinct,
  delete_absent, count, count-insert, count-delete, tally, increment, decrement, tally-increment,
  tally-decrement, decrement-increment, Result, refuse_if, ◌>>=◌, ◌>>◌, >>=-eq-ok, ℤ, pos_part,
  neg_part, ◌≤ℤ◌, ltb_ℤ, ok, err, pos, negsuc, ℕ, zero, suc, ◌+◌, ◌-◌, ◌*◌, ◌/◌, ◌%◌, ◌^◌, ◌≤◌, ◌<◌,
  min, bit_xor, String, ◌≡◌, refl, sym, ap, subst, ◌∙◌, ◌≢◌, ◌↔◌, ◌⊎◌, inl, inr, Bool, true, false,
  not, ◌&&◌, ◌||◌, Option, none, some, List, [], ◌∷◌, ◌++◌, map, arith, ℕ_discrete,
}

pub record PortAllocator : Type 0 where
  pub min_port : ℕ
  pub max_port : ℕ
  pub used : ℕ → Bool
  pub listeners : ℕ → Bool

pub data PortError : Type 0 where
  invalid_range no_available_port outside_range already_in_use unavailable : PortError

abbrev nothing : ℕ → Bool
nothing port = false

unfoldable pub new_port_allocator : ℤ → ℤ → Result PortError PortAllocator
new_port_allocator (pos lo) (pos hi) = do
  refuse_if (lo == 0 || hi == 0 || leb hi lo || ltb 65535 hi) invalid_range
  ok (record { min_port = lo; max_port = hi; used = nothing; listeners = nothing })
new_port_allocator (pos lo) (negsuc hi) = err invalid_range
new_port_allocator (negsuc lo) hi = err invalid_range

abbrev pub mark : ℕ → Bool → (ℕ → Bool) → ℕ → Bool
mark port b f q = if q == port then b else f q

-- `used[port] = true` and `listeners[port] = ln`.
unfoldable pub hold : ℕ → PortAllocator → PortAllocator
hold port p = record p { used = mark port true p.used; listeners = mark port true p.listeners }

-- `r` is the random number, below the size of the range.
abbrev pub random_port : PortAllocator → ℕ → ℕ
random_port p r = p.min_port + r

module _ (draw : ℕ → ℕ) (can_listen : ℕ → ℕ → Bool) where
  -- `n` attempts are left, and the next one is attempt `i`.
  unfoldable pub try_ports : ℕ → ℕ → PortAllocator → PortAllocator × Result PortError ℕ
  try_ports zero i p = (p, err no_available_port)
  try_ports (suc n) i p =
      let rest = try_ports n (suc i) p in
      let port = random_port p (draw i) in
      if p.used port || not (can_listen i port) then rest else (hold port p, ok port)

  unfoldable pub allocate : PortAllocator → PortAllocator × Result PortError ℕ
  allocate p = try_ports (p.max_port + 1 - p.min_port) 0 p

unfoldable pub allocate_specific : Bool → ℕ → PortAllocator → PortAllocator × Result PortError ℕ
allocate_specific can_listen port p =
    if ltb port p.min_port || ltb p.max_port port
    then (p, err outside_range)
    else if p.used port
    then (p, err already_in_use)
    else if not can_listen
    then (p, err unavailable)
    else (hold port p, ok port)

-- The listener goes to the caller; whether there was one.
unfoldable pub take_listener : ℕ → PortAllocator → PortAllocator × Bool
take_listener port p =
    if p.listeners port
    then (record p { listeners = mark port false p.listeners }, true)
    else (p, false)

unfoldable pub release : ℕ → PortAllocator → PortAllocator
release port p = record p { used = mark port false p.used; listeners = mark port false p.listeners }
