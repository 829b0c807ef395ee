-- ===== src/Tunnel/Sections/Steps.antt =====
-- The manager with the calls that are under way, and its reachable states.
use drip_ex.Base.{Bytes, ℕ, get_or, set, List, [], ◌∷◌}
use drip_ex.Tunnel.Manager.{Manager, ManagerConfig, new_manager_with_config}
use drip_ex.Tunnel.Sections.{Registrant, Task, entering, leaving, paying, section}

pub record System : Type 0 where
  pub manager : Manager
  pub tasks : List Task

abbrev pub no_task : Task
no_task = paying []

-- The next section of the call `i` runs.
unfoldable pub advance : ℕ → (ℕ → ℕ → ℕ) → ℕ → System → System
advance now rand i s =
    let (m, t) = section now rand (get_or s.tasks i no_task) s.manager in
    record { manager = m; tasks = set s.tasks i t }

-- The states that any calls lead to, with the registrations that began, the last one first.
pub data Reach (cfg : ManagerConfig) : List Registrant → System → Type 0 where
  started : Reach cfg [] (record { manager = new_manager_with_config cfg; tasks = [] })
  registering :
      {begun : List Registrant} {s : System}
      → (r : Registrant) → Reach cfg begun s
      → Reach cfg (r ∷ begun) (record s { tasks = entering r ∷ s.tasks })
  unregistering :
      {begun : List Registrant} {s : System}
      → (name : Bytes) → Reach cfg begun s
      → Reach cfg begun (record s { tasks = leaving name ∷ s.tasks })
  advancing :
      {begun : List Registrant} {s : System}
      → (now : ℕ) → (rand : ℕ → ℕ → ℕ) → (i : ℕ) → Reach cfg begun s
      → Reach cfg begun (advance now rand i s)
