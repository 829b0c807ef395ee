-- ===== src/Tunnel/Sections/Ending.antt =====
-- Calls of internal/server/tunnel/manager.go that run at the same time all end.
use drip_ex.Base.{
  ltb, if◌then◌else◌, Bool-cases, Bool, true, false, ◌&&◌, inl, inr, length, get_or, set,
  length-set, All, ℕ, zero, suc, ◌+◌, ◌*◌, ◌≤◌, ◌<◌, ◌≡◌, refl, ap, subst, ◌∙◌, List, [], ◌∷◌,
  arith,
}
use drip_ex.Tunnel.Manager.{Manager, ManagerConfig}
use drip_ex.Tunnel.Manager.Books.{IsValid}
use drip_ex.Tunnel.Sections.{
  Registrant, Task, entering, at_swap, at_account, at_rate, at_ip, at_name, leaving, paying,
  section,
}
use drip_ex.Tunnel.Sections.Steps.{System, no_task, advance, Reach, advancing}
use drip_ex.Tunnel.Sections.Reached.{all_held, all_held-set, get_or_beyond, IsDone, quiet-IsValid}
use drip_ex.Tunnel.Sections.Weights.{weight, retry, is_done, Spends, section-Spends}

-- Whose turn it is, with the clock reading and the random numbers of its section.
pub record Turn : Type 0 where
  pub call : ℕ
  pub now : ℕ
  pub rand : ℕ → ℕ → ℕ

unfoldable pub all_done : List Task → Bool
all_done [] = true
all_done (t ∷ tasks) = is_done t && all_done tasks

-- At most `n` turns, as long as calls are under way, given by a scheduler that sees the state.
unfoldable pub run : (ℕ → System → Turn) → ℕ → System → System
run pick zero s = s
run pick (suc n) s =
    let turn = pick n s in
    let rest = run pick n (advance turn.now turn.rand turn.call s) in
    if all_done s.tasks then s else rest

-- While calls are under way, the scheduler gives the turn to one of them.
abbrev pub IsBusy : (ℕ → System → Turn) → Type 0
IsBusy pick =
    (n : ℕ) (s : System)
    → all_done s.tasks ≡ false
    → is_done (get_or s.tasks (pick n s).call no_task) ≡ false

-- A call that has not begun, or has ended.
abbrev pub IsFresh : Task → Type 0
IsFresh (entering r) = Unit
IsFresh (leaving name) = Unit
IsFresh (paying []) = Unit
IsFresh other = ⊥

abbrev potential : ℕ → System → ℕ
potential n s = all_held (weight n s.manager.tunnel_count) s.tasks

retry-le : (count count' : ℕ) (t : Task) → retry count' t ≤ retry count t + 2
retry-le count count' (entering r) = omega arith
retry-le count count' (at_swap r loaded) = ground arith
retry-le count count' (at_account r) = omega arith
retry-le count count' (at_rate r) = omega arith
retry-le count count' (at_ip r) = omega arith
retry-le count count' (at_name r tried) = omega arith
retry-le count count' (leaving name) = omega arith
retry-le count count' (paying debts) = omega arith

-- A change of the counter makes each call's swap fail once at most.
all_held-le :
    (n count count' : ℕ) (tasks : List Task)
    → all_held (weight n count') tasks ≤ all_held (weight n count) tasks + 2 * length tasks
all_held-le n count count' [] = omega arith
all_held-le n count count' (t ∷ tasks) =
    omega (arith, retry-le count count' t, all_held-le n count count' tasks)

inside : (tasks : List Task) (i : ℕ) → is_done (get_or tasks i no_task) ≡ false → i < length tasks
unfolding is_done
inside tasks i busy = elim (Bool-cases (ltb i (length tasks))) [
  | inl here ↦ ground arith
  | inr beyond ↦ absurd (ground (arith, ap is_done (get_or_beyond tasks i (ground arith))))
]

advance-potential :
    (turn : Turn) (s : System)
    → is_done (get_or s.tasks turn.call no_task) ≡ false
    → potential (2 * length s.tasks) (advance turn.now turn.rand turn.call s)
      < potential (2 * length s.tasks) s
unfolding advance
advance-potential turn s busy = by_spends (section-Spends n s.manager turn.now turn.rand t busy)
  where
    n : ℕ
    n = 2 * length s.tasks

    t : Task
    t = get_or s.tasks turn.call no_task

    out : Manager × Task
    out = section turn.now turn.rand t s.manager

    moved :
        all_held (weight n s.manager.tunnel_count) (set s.tasks turn.call out.1)
          + weight n s.manager.tunnel_count t
        ≡ all_held (weight n s.manager.tunnel_count) s.tasks + weight n s.manager.tunnel_count out.1
    moved =
        all_held-set (weight n s.manager.tunnel_count) s.tasks turn.call out.1
          (inside s.tasks turn.call busy)

    by_spends :
        Spends n s.manager t out
        → all_held (weight n out.0.tunnel_count) (set s.tasks turn.call out.1)
          < all_held (weight n s.manager.tunnel_count) s.tasks
    by_spends (inl (same, less)) =
        omega
          (arith, ap (λ c. all_held (weight n c) (set s.tasks turn.call out.1)) same, less, moved)
    by_spends (inr less) = omega (
      arith,
      less,
      moved,
      all_held-le n s.manager.tunnel_count out.0.tunnel_count (set s.tasks turn.call out.1),
      length-set s.tasks turn.call out.1,
    )

advance_width :
    (turn : Turn) (s : System)
    → length (advance turn.now turn.rand turn.call s).tasks ≡ length s.tasks
unfolding advance
advance_width turn s = length-set s.tasks turn.call _

all_done-IsDone : (tasks : List Task) → all_done tasks ≡ true → All IsDone tasks
unfolding all_done is_done
all_done-IsDone [] e = tt
all_done-IsDone (paying [] ∷ tasks) e = (refl, all_done-IsDone tasks e)
all_done-IsDone (paying (d ∷ debts) ∷ tasks) e = cc
all_done-IsDone (entering r ∷ tasks) e = cc
all_done-IsDone (at_swap r loaded ∷ tasks) e = cc
all_done-IsDone (at_account r ∷ tasks) e = cc
all_done-IsDone (at_rate r ∷ tasks) e = cc
all_done-IsDone (at_ip r ∷ tasks) e = cc
all_done-IsDone (at_name r tried ∷ tasks) e = cc
all_done-IsDone (leaving name ∷ tasks) e = cc

module _ (cfg : ManagerConfig) (begun : List Registrant) (pick : ℕ → System → Turn)
    (busy : IsBusy pick) where
  run-Reach : (n : ℕ) (s : System) → Reach cfg begun s → Reach cfg begun (run pick n s)
  unfolding run
  run-Reach zero s reach = reach
  run-Reach (suc n) s reach =
      let turn = pick n s in
      by_done (all_done s.tasks) (run-Reach n _ (advancing turn.now turn.rand turn.call reach))
    where
      by_done :
          {rest : System} (done : Bool)
          → Reach cfg begun rest
          → Reach cfg begun (if done then s else rest)
      by_done true r = reach
      by_done false r = r

  run_ends :
      (n width : ℕ) (s : System)
      → length s.tasks ≡ width
      → potential (2 * width) s < n
      → all_done (run pick n s).tasks ≡ true
  unfolding run
  run_ends zero width s wide less = absurd (omega (arith, less))
  run_ends (suc n) width s wide less = elim (Bool-cases (all_done s.tasks)) [
    | inl done ↦ rw done (done)
    | inr on ↦
        let turn = pick n s in
        let fewer' =
          subst
            (λ w. potential (2 * w) (advance turn.now turn.rand turn.call s) < potential (2 * w) s)
            wide (advance-potential turn s (busy n s on)) in
        rw on (
          run_ends n width (advance turn.now turn.rand turn.call s) (advance_width turn s ∙ wide)
            (omega (arith, fewer', less)))
  ]

all_held_fresh :
    (n count : ℕ) (tasks : List Task)
    → All IsFresh tasks
    → all_held (weight n count) tasks ≤ length tasks * (74 + (n + n))
all_held_fresh n count [] fresh = omega arith
all_held_fresh n count (entering r ∷ tasks) (f, fresh) =
    omega (arith, all_held_fresh n count tasks fresh)
all_held_fresh n count (leaving name ∷ tasks) (f, fresh) =
    omega (arith, all_held_fresh n count tasks fresh)
all_held_fresh n count (paying [] ∷ tasks) (f, fresh) =
    omega (arith, all_held_fresh n count tasks fresh)
all_held_fresh n count (paying (d ∷ debts) ∷ tasks) (f, fresh) = absurd f
all_held_fresh n count (at_swap r loaded ∷ tasks) (f, fresh) = absurd f
all_held_fresh n count (at_account r ∷ tasks) (f, fresh) = absurd f
all_held_fresh n count (at_rate r ∷ tasks) (f, fresh) = absurd f
all_held_fresh n count (at_ip r ∷ tasks) (f, fresh) = absurd f
all_held_fresh n count (at_name r tried ∷ tasks) (f, fresh) = absurd f

-- Whatever calls have run before, and in whatever order a scheduler that is never idle runs the
-- sections of n calls, each of which is about to begin or has ended, failed rounds of the
-- compare-and-swap loop included: after at most n * (74 + 4 * n) + 1 turns all of them have ended, and the manager is in order: its table is
-- well formed, the global counter counts the tunnels and is within the cap, and each account's
-- counter counts the account's tunnels.
pub run-ends :
    (cfg : ManagerConfig) (begun : List Registrant) (s : System) (pick : ℕ → System → Turn)
    → Reach cfg begun s
    → All IsFresh s.tasks
    → IsBusy pick
    → (all_done (run pick (length s.tasks * (74 + 4 * length s.tasks) + 1) s).tasks ≡ true)
      × IsValid (run pick (length s.tasks * (74 + 4 * length s.tasks) + 1) s).manager
run-ends cfg begun s pick reach fresh busy =
    let width = length s.tasks in
    let n = width * (74 + 4 * width) + 1 in
    let same : 74 + (2 * width + 2 * width) ≡ 74 + 4 * width = omega arith in
    let ended = run_ends cfg begun pick busy n width s refl (
      omega (
        arith,
        all_held_fresh (2 * width) s.manager.tunnel_count s.tasks fresh,
        ap (λ (k : ℕ). width * k) same,
      )) in
    (
      ended,
      quiet-IsValid cfg begun (run pick n s) (run-Reach cfg begun pick busy n s reach)
          (all_done-IsDone _ ended),
    )
