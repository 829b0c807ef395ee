-- ===== src/Tunnel/Sections/Reached.antt =====
-- At every moment, whatever calls are under way: the counters stand for the tunnels and for the
-- slots that the calls hold.
use drip_ex.Base.{
  ◌==◌, if◌then◌else◌, Bool, true, false, Option, none, some, str_eq, str_eq_refl, sym, subst,
  All-weaken, ltb, Bool-cases, length, get_or, set, All, Bytes, lookup, tally, ℕ, zero, suc, ◌+◌,
  ◌≤◌, ◌<◌, ◌≡◌, refl, ap, ◌≢◌, inl, inr, List, [], ◌∷◌, arith,
}
use drip_ex.Tunnel.Shards.{total}
use drip_ex.Tunnel.Shards.Counting.{IsSharded}
use drip_ex.Tunnel.Manager.{Manager, ManagerConfig, new_manager_with_config}
use drip_ex.Tunnel.Manager.Books.{any_tunnel, of_account, IsValid, new-IsValid}
use drip_ex.Tunnel.Sections.{
  Registrant, Task, entering, at_swap, at_account, at_rate, at_ip, at_name, leaving, paying,
  section,
}
use drip_ex.Tunnel.Sections.Steps.{
  System, no_task, advance, Reach, started, registering, unregistering, advancing,
}
use drip_ex.Tunnel.Sections.Balance.{
  held_global, held_account, IsBound, IsLimited, IsBalanced, section-IsBalanced,
}

-- The slots that all calls hold together.
abbrev pub all_held : (Task → ℕ) → List Task → ℕ
all_held held [] = 0
all_held held (t ∷ tasks) = held t + all_held held tasks

abbrev raised : ℕ → Option ℕ → Option ℕ
raised limit none = none
raised limit (some k) = if limit == 0 then none else some (if ltb k limit then limit else k)

-- The highest limit that the registrations brought for the account; there is none where one of them
-- brought no limit.
unfoldable pub highest : List Registrant → Bytes → Option ℕ
highest [] a = some 0
highest (r ∷ begun) a =
    let rest = highest begun a in
    if str_eq r.owner.account_id a then raised r.owner.max_tunnels rest else rest

-- A number is within a limit, where there is one.
abbrev pub IsWithin : ℕ → Option ℕ → Type 0
IsWithin n none = Unit
IsWithin n (some k) = n ≤ k

-- The counters are within their limits, and each counts its tunnels and the slots that calls hold.
pub record IsAccounted (begun : List Registrant) (s : System) : Type 0 where
  sharded : IsSharded s.manager.shards
  capped : s.manager.tunnel_count ≤ s.manager.max_tunnels
  global : s.manager.tunnel_count ≡ total any_tunnel s.manager.shards + all_held held_global s.tasks
  account :
      (a : Bytes)
      → a ≢ []
      → tally a s.manager.tunnels_by_account
        ≡ total (of_account a) s.manager.shards + all_held (held_account a) s.tasks
  account_capped :
      (a : Bytes) (k : ℕ)
      → a ≢ []
      → highest begun a ≡ some k
      → tally a s.manager.tunnels_by_account ≤ k
  limited : All (IsLimited s.manager.max_tunnels (highest begun)) s.tasks

raised-le :
    (limit k : ℕ) (before : Option ℕ)
    → raised limit before ≡ some k
    → (0 < limit) × (limit ≤ k) × ((j : ℕ) × (before ≡ some j) × (j ≤ k))
raised-le limit k none e = cc
raised-le limit k (some j) e = (ground arith, ground arith, (j, refl, ground arith))

-- A registration that begins only raises the bounds, and keeps to them.
highest-le :
    (r : Registrant) (begun : List Registrant) (a : Bytes) (k : ℕ)
    → highest (r ∷ begun) a ≡ some k
    → (j : ℕ) × (highest begun a ≡ some j) × (j ≤ k)
unfolding highest
highest-le r begun a k e = by_account _ refl e
  where
    by_account :
        (same : Bool)
        → str_eq r.owner.account_id a ≡ same
        → (if same then raised r.owner.max_tunnels (highest begun a) else highest begun a) ≡ some k
        → (j : ℕ) × (highest begun a ≡ some j) × (j ≤ k)
    by_account true f e' = (raised-le r.owner.max_tunnels k (highest begun a) e').2
    by_account false f e' = (k, e', omega arith)

begun-IsBound : (r : Registrant) (begun : List Registrant) → IsBound (highest (r ∷ begun)) r
unfolding highest
begun-IsBound r begun k = rw (str_eq_refl r.owner.account_id) (λ e.
    let (some_limit, below, _) =
      raised-le r.owner.max_tunnels k (highest begun r.owner.account_id) e in
    (some_limit, below))

module _ (cap : ℕ) (r : Registrant) (begun : List Registrant) where
  raised-IsBound : (q : Registrant) → IsBound (highest begun) q → IsBound (highest (r ∷ begun)) q
  raised-IsBound q bound k e =
      let (j, before, le) = highest-le r begun q.owner.account_id k e in
      let (some_limit, below) = bound j before in (some_limit, omega (arith, below, le))

  raised_limits :
      (t : Task) → IsLimited cap (highest begun) t → IsLimited cap (highest (r ∷ begun)) t
  raised_limits (entering q) l = raised-IsBound q l
  raised_limits (at_swap q loaded) l = (raised-IsBound q l.0, l.1)
  raised_limits (at_account q) l = raised-IsBound q l
  raised_limits (at_rate q) l = tt
  raised_limits (at_ip q) l = tt
  raised_limits (at_name q tried) l = tt
  raised_limits (leaving name) l = tt
  raised_limits (paying debts) l = tt

all_held-get :
    (held : Task → ℕ) (tasks : List Task) (i : ℕ)
    → held no_task ≡ 0
    → held (get_or tasks i no_task) ≤ all_held held tasks
all_held-get held [] i h = omega (arith, h)
all_held-get held (t ∷ tasks) zero h = omega arith
all_held-get held (t ∷ tasks) (suc i) h = omega (arith, all_held-get held tasks i h)

pub all_held-set :
    (held : Task → ℕ) (tasks : List Task) (i : ℕ) (t : Task)
    → i < length tasks
    → all_held held (set tasks i t) + held (get_or tasks i no_task) ≡ all_held held tasks + held t
all_held-set held [] i t h = omega arith
all_held-set held (u ∷ tasks) zero t h = omega arith
all_held-set held (u ∷ tasks) (suc i) t h = omega (arith, all_held-set held tasks i t (omega arith))

pub get_or_beyond :
    (tasks : List Task) (i : ℕ) → length tasks ≤ i → get_or tasks i no_task ≡ no_task
get_or_beyond [] i h = refl
get_or_beyond (t ∷ tasks) zero h = absurd (omega (arith, h))
get_or_beyond (t ∷ tasks) (suc i) h = get_or_beyond tasks i (omega (arith, h))

all_held-set_beyond :
    (held : Task → ℕ) (tasks : List Task) (i : ℕ) (t : Task)
    → length tasks ≤ i
    → all_held held (set tasks i t) ≡ all_held held tasks
all_held-set_beyond held [] i t h = refl
all_held-set_beyond held (u ∷ tasks) zero t h = absurd (omega (arith, h))
all_held-set_beyond held (u ∷ tasks) (suc i) t h =
    ap (λ n. held u + n) (all_held-set_beyond held tasks i t (omega (arith, h)))

All-get :
    (P : Task → Type 0) (tasks : List Task) (i : ℕ)
    → P no_task
    → All P tasks
    → P (get_or tasks i no_task)
All-get P [] i d h = d
All-get P (t ∷ tasks) zero d h = h.0
All-get P (t ∷ tasks) (suc i) d h = All-get P tasks i d h.1

All-set :
    (P : Task → Type 0) (tasks : List Task) (i : ℕ) (t : Task)
    → P t
    → All P tasks
    → All P (set tasks i t)
All-set P [] i t p h = tt
All-set P (u ∷ tasks) zero t p h = (p, h.1)
All-set P (u ∷ tasks) (suc i) t p h = (h.0, All-set P tasks i t p h.1)

module _ (begun : List Registrant) (s : System) (now : ℕ) (rand : ℕ → ℕ → ℕ) (i : ℕ)
    (inv : IsAccounted begun s) where
  abbrev current : Task
  current = get_or s.tasks i no_task

  abbrev outcome : Manager × Task
  outcome = section now rand current s.manager

  balanced : IsBalanced (highest begun) s.manager current outcome
  balanced =
      section-IsBalanced (highest begun) s.manager inv.sharded now rand current
        (All-get (IsLimited s.manager.max_tunnels (highest begun)) s.tasks i tt inv.limited)

  -- Beyond the calls there is nothing to run.
  outcome_beyond : (held : Task → ℕ) → held no_task ≡ 0 → length s.tasks ≤ i → held outcome.1 ≡ 0
  unfolding section
  outcome_beyond held h over = rw (get_or_beyond s.tasks i over) h

  moved :
      (held : Task → ℕ)
      → held no_task ≡ 0
      → all_held held (set s.tasks i outcome.1) + held current
        ≡ all_held held s.tasks + held outcome.1
  moved held h = elim (Bool-cases (ltb i (length s.tasks))) [
    | inl inside ↦ all_held-set held s.tasks i outcome.1 (ground arith)
    | inr over ↦ omega (
      arith,
      outcome_beyond held h (ground arith),
      all_held-set_beyond held s.tasks i outcome.1 (ground arith),
      ap held (get_or_beyond s.tasks i (ground arith)),
      h,
    )
  ]

  advance-IsAccounted : IsAccounted begun (advance now rand i s)
  unfolding advance
  advance-IsAccounted = record {
    sharded = balanced.sharded;
    capped = omega (arith, balanced.within inv.capped, balanced.same_cap);
    global = omega (
      arith,
      balanced.global (omega (arith, inv.global, all_held-get held_global s.tasks i refl)),
      inv.global,
      moved held_global refl,
    );
    account = λ a ne. omega (
      arith,
      balanced.account a ne
          (omega (arith, inv.account a ne, all_held-get (held_account a) s.tasks i refl)),
      inv.account a ne,
      moved (held_account a) refl,
    );
    account_capped = λ a k ne e. balanced.account_within a k ne e (inv.account_capped a k ne e);
    limited =
        subst (λ cap. All (IsLimited cap (highest begun)) (set s.tasks i outcome.1))
          (sym balanced.same_cap)
          (All-set (IsLimited s.manager.max_tunnels (highest begun)) s.tasks i outcome.1
            (subst (λ cap. IsLimited cap (highest begun) outcome.1) balanced.same_cap
              balanced.limited)
            inv.limited);
  }

Reach-IsAccounted :
    {cfg : ManagerConfig} {begun : List Registrant} {s : System}
    → Reach cfg begun s
    → IsAccounted begun s
unfolding new_manager_with_config lookup
Reach-IsAccounted {cfg} started =
    let new = new-IsValid cfg in
    record {
      sharded = new.sharded;
      capped = new.capped;
      global = omega (arith, new.counted);
      account = λ a ne. omega (arith, new.accounts a ne);
      account_capped = λ a k ne e. omega arith;
      limited = tt;
    }
Reach-IsAccounted (registering {begun} {s} r reach) =
    let inv = Reach-IsAccounted reach in
    record {
      sharded = inv.sharded;
      capped = inv.capped;
      global = omega (arith, inv.global);
      account = λ a ne. omega (arith, inv.account a ne);
      account_capped = λ a k ne e.
          let (j, before, le) = highest-le r begun a k e in
          omega (arith, inv.account_capped a j ne before, le);
      limited = (
        begun-IsBound r begun,
        All-weaken _ _ s.tasks (raised_limits s.manager.max_tunnels r begun) inv.limited,
      );
    }
Reach-IsAccounted (unregistering name reach) =
    let inv = Reach-IsAccounted reach in
    record {
      sharded = inv.sharded;
      capped = inv.capped;
      global = omega (arith, inv.global);
      account = λ a ne. omega (arith, inv.account a ne);
      account_capped = inv.account_capped;
      limited = (tt, inv.limited);
    }
Reach-IsAccounted (advancing {begun} {s} now rand i reach) =
    advance-IsAccounted begun s now rand i (Reach-IsAccounted reach)

-- However the sections of any number of registrations and unregistrations interleave, whatever
-- limits the registrations bring: at no moment are there more tunnels than the server's cap, nor more
-- tunnels of an account than the highest limit that a registration has brought for it so far, but for
-- an account that some registration brought without a limit.
pub total-le-limits :
    (cfg : ManagerConfig) (begun : List Registrant) (s : System) (a : Bytes)
    → Reach cfg begun s
    → a ≢ []
    → (total any_tunnel s.manager.shards ≤ s.manager.max_tunnels)
      × IsWithin (total (of_account a) s.manager.shards) (highest begun a)
total-le-limits cfg begun s a reach ne =
    let inv = Reach-IsAccounted reach in
    (omega (arith, inv.capped, inv.global), within inv (highest begun a) refl)
  where
    within :
        IsAccounted begun s
        → (most : Option ℕ) → highest begun a ≡ most
        → IsWithin (total (of_account a) s.manager.shards) most
    within inv none e = tt
    within inv (some k) e = omega (arith, inv.account_capped a k ne e, inv.account a ne)

-- A call has ended.
abbrev pub IsDone : Task → Type 0
IsDone t = t ≡ paying []

all_held_done :
    (held : Task → ℕ) (tasks : List Task)
    → held no_task ≡ 0
    → All IsDone tasks
    → all_held held tasks ≡ 0
all_held_done held [] h done = refl
all_held_done held (t ∷ tasks) h (e, done) =
    omega (arith, ap held e, h, all_held_done held tasks h done)

-- However the sections of registrations and unregistrations interleaved, and whatever limits the
-- registrations brought, once all calls have ended
-- the manager is in order: its table is well formed, the global counter counts the tunnels and is
-- within the cap, and each account's counter counts the account's tunnels.
pub quiet-IsValid :
    (cfg : ManagerConfig) (begun : List Registrant) (s : System)
    → Reach cfg begun s
    → All IsDone s.tasks
    → IsValid s.manager
quiet-IsValid cfg begun s reach done =
    let inv = Reach-IsAccounted reach in
    record {
      sharded = inv.sharded;
      counted = omega (arith, inv.global, all_held_done held_global s.tasks refl done);
      capped = inv.capped;
      accounts =
          λ a ne. omega (arith, inv.account a ne, all_held_done (held_account a) s.tasks refl done);
    }
