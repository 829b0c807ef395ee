-- ===== src/Tcp/Ports/Held.antt =====
-- What the allocator hands out, and that it keeps its tables in agreement.
use drip_ex.Base.{
  ltb, Bool-cases, Result, ℤ, ok, err, pos, negsuc, ℕ, zero, suc, ◌+◌, ◌-◌, ◌≤◌, ◌<◌, ◌≡◌, refl,
  sym, subst, ◌↔◌, inl, inr, Bool, true, false, not, ◌||◌, arith,
}
use drip_ex.Tcp.Ports.{
  PortAllocator, PortError, new_port_allocator, hold, random_port, try_ports, allocate,
  allocate_specific, take_listener, release,
}

-- The port was in range and free, and is now the only one that is taken beside those before.
pub record IsTaken (p p' : PortAllocator) (port : ℕ) : Type 0 where
  pub above : p.min_port ≤ port
  pub below : port ≤ p.max_port
  pub free : p.used port ≡ false
  pub taken : p' ≡ hold port p

abbrev pub Allocated : PortAllocator → PortAllocator × Result PortError ℕ → Type 0
Allocated p (p', ok port) = IsTaken p p' port
Allocated p (p', err e) = p' ≡ p

-- A port is handed out or listened on only within the range, and a listener is held only for a port
-- that is handed out.
pub record IsPortTable (p : PortAllocator) : Type 0 where
  pub range : p.min_port ≤ p.max_port
  pub lower : 1 ≤ p.min_port
  pub upper : p.max_port ≤ 65535
  pub inside : (q : ℕ) → p.used q ≡ true → (p.min_port ≤ q) × (q ≤ p.max_port)
  pub held : (q : ℕ) → p.listeners q ≡ true → p.used q ≡ true

-- The random numbers of an allocation are below the size of the range.
abbrev pub IsDraw : PortAllocator → (ℕ → ℕ) → Type 0
IsDraw p draw = (i : ℕ) → draw i < p.max_port + 1 - p.min_port

try_ports-Allocated :
    (draw : ℕ → ℕ) (can_listen : ℕ → ℕ → Bool) (n i : ℕ) (p : PortAllocator)
    → IsDraw p draw
    → Allocated p (try_ports draw can_listen n i p)
unfolding try_ports
try_ports-Allocated draw can_listen zero i p d = refl
try_ports-Allocated draw can_listen (suc n) i p d =
    let port = random_port p (draw i) in
    elim (Bool-cases (p.used port || not (can_listen i port))) [
      | inl busy ↦ rw busy (try_ports-Allocated draw can_listen n (suc i) p d)
      | inr free ↦ rw free (record {
        above = omega arith;
        below = omega (arith, d i);
        free = ground arith;
        taken = refl;
      })
    ]

-- A random allocation, with random numbers below the size of the range, hands out a port of the
-- range that was free, and takes nothing else; or it fails and changes nothing.
pub allocate-Allocated :
    (draw : ℕ → ℕ) (can_listen : ℕ → ℕ → Bool) (p : PortAllocator)
    → IsDraw p draw
    → Allocated p (allocate draw can_listen p)
unfolding allocate
allocate-Allocated draw can_listen p d = try_ports-Allocated draw can_listen _ 0 p d

pub allocate_specific-Allocated :
    (can_listen : Bool) (port : ℕ) (p : PortAllocator)
    → Allocated p (allocate_specific can_listen port p)
unfolding allocate_specific
allocate_specific-Allocated can_listen port p =
    elim (Bool-cases (ltb port p.min_port || ltb p.max_port port)) [
      | inl out ↦ rw out refl
      | inr inside ↦ elim (Bool-cases (p.used port)) [
        | inl busy ↦ rw (inside, busy) refl
        | inr free ↦ elim (Bool-cases can_listen) [
          | inl up ↦
              rw (inside, free, up)
                (record { above = ground arith; below = ground arith; free = free; taken = refl })
          | inr down ↦ rw (inside, free, down) refl
        ]
      ]
    ]

-- A port that is asked for is handed out if and only if it is in the range, is not handed out yet,
-- and the system lets the server listen on it.
pub allocate_specific_iff :
    (can_listen : Bool) (port : ℕ) (p : PortAllocator)
    → ((allocate_specific can_listen port p).1 ≡ ok port)
      ↔ ((p.min_port ≤ port) × (port ≤ p.max_port) × (p.used port ≡ false) × (can_listen ≡ true))
unfolding allocate_specific
allocate_specific_iff can_listen port p = (
  λ e. (ground arith, ground arith, ground arith, ground arith),
  λ (lo, hi, free, up). ground arith,
)

-- In an allocator in order, a port that was taken and is released leaves the allocator as it was,
-- at each port.
pub release-IsTaken :
    (p p' : PortAllocator) (port q : ℕ)
    → IsPortTable p
    → IsTaken p p' port
    → ((release port p').used q ≡ p.used q) × ((release port p').listeners q ≡ p.listeners q)
unfolding release hold
release-IsTaken p p' port q v w = rw w.taken (ground (arith, w.free, v.held q))

pub IsTaken-IsPortTable :
    (p p' : PortAllocator) (port : ℕ) → IsTaken p p' port → IsPortTable p → IsPortTable p'
unfolding hold
IsTaken-IsPortTable p p' port w v = rw w.taken (record {
  range = v.range;
  lower = v.lower;
  upper = v.upper;
  inside = λ q h. ground (arith, v.inside q, w.above, w.below);
  held = λ q h. ground (arith, v.held q);
})

pub Allocated-IsPortTable :
    (p : PortAllocator) (out : PortAllocator × Result PortError ℕ)
    → Allocated p out
    → IsPortTable p
    → IsPortTable out.0
Allocated-IsPortTable p (p', ok port) w v = IsTaken-IsPortTable p p' port w v
Allocated-IsPortTable p (p', err e) w v = subst IsPortTable (sym w) v

take_listener-IsPortTable :
    (port : ℕ) (p : PortAllocator) → IsPortTable p → IsPortTable (take_listener port p).0
unfolding take_listener
take_listener-IsPortTable port p v = elim (Bool-cases (p.listeners port)) [
  | inl there ↦ rw there (record {
    range = v.range;
    lower = v.lower;
    upper = v.upper;
    inside = v.inside;
    held = λ q h. ground (arith, v.held q);
  })
  | inr gone ↦ rw gone v
]

-- A new allocator is in order.
pub new-IsPortTable :
    (lo hi : ℤ) (p : PortAllocator) → new_port_allocator lo hi ≡ ok p → IsPortTable p
unfolding new_port_allocator
new-IsPortTable (pos lo) (pos hi) p e =
    let same : record { min_port = lo; max_port = hi; used = λ q. false; listeners = λ q. false }
        ≡ p =
      ground arith in
    subst IsPortTable same (record {
      range = ground arith;
      lower = ground arith;
      upper = ground arith;
      inside = λ q h. cc;
      held = λ q h. cc;
    })
new-IsPortTable (pos lo) (negsuc hi) p e = cc
new-IsPortTable (negsuc lo) hi p e = cc

pub release-IsPortTable :
    (port : ℕ) (p : PortAllocator) → IsPortTable p → IsPortTable (release port p)
unfolding release
release-IsPortTable port p v = record {
  range = v.range;
  lower = v.lower;
  upper = v.upper;
  inside = λ q h. ground (arith, v.inside q);
  held = λ q h. ground (arith, v.held q);
}

-- Allocating a port at random, with random numbers below the size of the range, or by its number,
-- taking a listener and releasing a port keep each port handed out within the range, and each
-- listener that is held on a port that is handed out.
pub operations-IsPortTable :
    (draw : ℕ → ℕ) (can_listen : ℕ → ℕ → Bool) (up : Bool) (port : ℕ) (p : PortAllocator)
    → IsDraw p draw
    → IsPortTable p
    → IsPortTable (allocate draw can_listen p).0
      × IsPortTable (allocate_specific up port p).0
      × IsPortTable (take_listener port p).0
      × IsPortTable (release port p)
operations-IsPortTable draw can_listen up port p d v = (
  Allocated-IsPortTable p _ (allocate-Allocated draw can_listen p d) v,
  Allocated-IsPortTable p _ (allocate_specific-Allocated up port p) v,
  take_listener-IsPortTable port p v,
  release-IsPortTable port p v,
)
