-- ===== src/Examples/Interleaving.antt =====
-- Calls of the tunnel manager that run at the same time, at concrete inputs.
use drip_ex.Base.{
  List, Bool, true, false, if◌then◌else◌, ◌&&◌, get_or, ◌+◌, ◌*◌, All, Bytes, codes, str_eq, lookup,
  insert, delete, increment, decrement, pos, ℕ, zero, suc, ◌≤◌, ◌≡◌, refl, [], ◌∷◌,
}
use drip_ex.Names.{validate_subdomain, is_reserved, subdomain_regex, matches_tail}
use drip_ex.Tunnel.Shards.{total, put_tunnel, shard_index, fnv32a}
use drip_ex.Tunnel.Manager.{
  ManagerConfig, new_manager_with_config, is_limited, register_subdomain, rollback_global,
  settle_account,
}
use drip_ex.Tunnel.Manager.Books.{any_tunnel, of_account, IsValid}
use drip_ex.Tunnel.Sections.{
  Registrant, Task, entering, pay, section, load, swap, take_account, take_rate, take_name,
}
use drip_ex.Tunnel.Sections.Steps.{System, no_task, advance, Reach, started, registering, advancing}
use drip_ex.Tunnel.Sections.Reached.{IsDone, IsWithin, highest, total-le-limits, quiet-IsValid}
use drip_ex.Tunnel.Sections.Weights.{is_done}
use drip_ex.Tunnel.Sections.Ending.{Turn, all_done, run, run-ends}

abbrev cfg : ManagerConfig
cfg = record {
  max_tunnels = pos 2;
  max_tunnels_per_ip = pos 1;
  rate_limit = pos 5;
  rate_limit_window = pos 0;
}

abbrev team : Bytes
team = codes "team"

-- A client of the account `team` that asks for the name `acme`.
abbrev asker : Registrant
asker = record {
  custom = codes "acme";
  ip = codes "1.2.3.4";
  owner = record { client_id = codes "laptop"; account_id = team; max_tunnels = 2 };
}

abbrev no_random : ℕ → ℕ → ℕ
no_random n i = 0

abbrev both : System
both = record {
  manager = new_manager_with_config cfg;
  tasks = entering asker ∷ entering asker ∷ [];
}

-- The call `i` runs, `n` sections in a row.
abbrev turns : ℕ → ℕ → System → System
turns zero i s = s
turns (suc n) i s = turns n i (advance 7 no_random i s)

-- The second call loads the counter, the first one goes all the way, the swap of the second fails, and
-- in the end the second finds the name taken and gives its slots back.
abbrev over : System
over = turns 9 1 (turns 5 0 (turns 1 1 both))

abbrev begun : List Registrant
begun = asker ∷ asker ∷ []

turns-Reach : (n i : ℕ) (s : System) → Reach cfg begun s → Reach cfg begun (turns n i s)
turns-Reach zero i s r = r
turns-Reach (suc n) i s r = turns-Reach n i (advance 7 no_random i s) (advancing 7 no_random i r)

both-Reach : Reach cfg begun both
both-Reach = registering asker (registering asker started)

over-Reach : Reach cfg begun over
over-Reach = turns-Reach 9 1 _ (turns-Reach 5 0 _ (turns-Reach 1 1 both both-Reach))

over-IsDone : All IsDone over.tasks
unfolding advance section load swap take_account take_rate take_name is_limited register_subdomain
    pay rollback_global settle_account validate_subdomain is_reserved subdomain_regex matches_tail
    new_manager_with_config put_tunnel shard_index fnv32a increment decrement lookup insert delete
    str_eq
over-IsDone = (refl, (refl, tt))

quiet-IsValid_example : IsValid over.manager
quiet-IsValid_example = quiet-IsValid cfg begun over over-Reach over-IsDone

total-le-limits_example :
    (total any_tunnel over.manager.shards ≤ over.manager.max_tunnels)
    × IsWithin (total (of_account team) over.manager.shards) (highest begun team)
total-le-limits_example = total-le-limits cfg begun over team over-Reach (λ e. cc)

-- The first call that has not ended.
abbrev first_busy : List Task → ℕ
first_busy [] = 0
first_busy (t ∷ tasks) = if is_done t then suc (first_busy tasks) else 0

abbrev in_turn : ℕ → System → Turn
in_turn n s = record { call = first_busy s.tasks; now = n; rand = no_random }

first_busy_lem :
    (tasks : List Task)
    → all_done tasks ≡ false
    → is_done (get_or tasks (first_busy tasks) no_task) ≡ false
unfolding all_done
first_busy_lem [] e = cc
first_busy_lem (t ∷ tasks) e = by_first (is_done t) refl e (first_busy_lem tasks)
  where
    by_first :
        (done : Bool)
        → is_done t ≡ done
        → (done && all_done tasks) ≡ false
        → (all_done tasks ≡ false → is_done (get_or tasks (first_busy tasks) no_task) ≡ false)
        → is_done (get_or (t ∷ tasks) (if done then suc (first_busy tasks) else 0) no_task) ≡ false
    by_first true d e' rest = rest e'
    by_first false d e' rest = d

run-ends_example :
    (all_done (run in_turn (2 * (74 + 4 * 2) + 1) both).tasks ≡ true)
    × IsValid (run in_turn (2 * (74 + 4 * 2) + 1) both).manager
run-ends_example =
    run-ends cfg begun both in_turn both-Reach (tt, (tt, tt)) (λ n s. first_busy_lem s.tasks)
