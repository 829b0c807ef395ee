-- ===== src/Tunnel/Sections/Balance.antt =====
-- What one section changes of the counters, and of the slots that its call holds.
use drip_ex.Base.{
  ◌==◌, Bool, true, ap, is_empty_ne, ne_is_empty, leb, if◌then◌else◌, Bool-cases, is_some, Bytes,
  str_eq, str_eq_iff, is_empty_ne, ne_is_empty, lookup, tally, tally-increment, tally-decrement, ℕ,
  suc, ◌+◌, ◌≤◌, ◌<◌, ◌≡◌, refl, sym, ◌∙◌, ◌≢◌, inl, inr, false, Option, none, some, List, [], ◌∷◌,
  arith,
}
use drip_ex.Tunnel.Shards.{new_connection, Connection, total, find, get_shard, is_used, shard_index}
use drip_ex.Tunnel.Shards.Counting.{
  IsSharded, put-IsSharded, remove-IsSharded, total-put, total-remove,
}
use drip_ex.Tunnel.Manager.{
  Manager, register_subdomain, owned_connection, rollback_global, settle_account, settle_ip,
}
use drip_ex.Tunnel.Manager.Books.{any_tunnel, of_account}
use drip_ex.Tunnel.Sections.{
  Registrant, Debt, owe_global, owe_account, owe_ip, owe_rate, Task, entering, at_account, at_rate,
  at_swap, at_ip, at_name, leaving, paying, pay, all_debts, load, swap, take_account, take_rate,
  take_ip, placed_or, candidate, take_name, left, leave, section,
}

abbrev debts_global : List Debt → ℕ
debts_global [] = 0
debts_global (owe_global ∷ debts) = suc (debts_global debts)
debts_global (owe_account account ∷ debts) = debts_global debts
debts_global (owe_ip ip ∷ debts) = debts_global debts
debts_global (owe_rate ip ∷ debts) = debts_global debts

abbrev debts_account : Bytes → List Debt → ℕ
debts_account a [] = 0
debts_account a (owe_global ∷ debts) = debts_account a debts
debts_account a (owe_account account ∷ debts) =
    (if str_eq a account then 1 else 0) + debts_account a debts
debts_account a (owe_ip ip ∷ debts) = debts_account a debts
debts_account a (owe_rate ip ∷ debts) = debts_account a debts

abbrev slot_of : Bytes → Registrant → ℕ
slot_of a r = if str_eq a r.owner.account_id then 1 else 0

-- The global slots that a call holds.
abbrev pub held_global : Task → ℕ
held_global (entering r) = 0
held_global (at_swap r loaded) = 0
held_global (at_account r) = 1
held_global (at_rate r) = 1
held_global (at_ip r) = 1
held_global (at_name r tried) = 1
held_global (leaving name) = 0
held_global (paying debts) = debts_global debts

-- The slots of an account that a call holds.
abbrev pub held_account : Bytes → Task → ℕ
held_account a (entering r) = 0
held_account a (at_swap r loaded) = 0
held_account a (at_account r) = 0
held_account a (at_rate r) = slot_of a r
held_account a (at_ip r) = slot_of a r
held_account a (at_name r tried) = slot_of a r
held_account a (leaving name) = 0
held_account a (paying debts) = debts_account a debts

-- The registration brings a limit for its account, which is at most the bound of the account, where
-- the account has a bound.
abbrev pub IsBound : (Bytes → Option ℕ) → Registrant → Type 0
IsBound bounds r =
    (k : ℕ)
    → bounds r.owner.account_id ≡ some k
    → (0 < r.owner.max_tunnels) × (r.owner.max_tunnels ≤ k)

-- What a call that takes slots knows: the bound of its account, and that there was room when it
-- loaded the counter.
abbrev pub IsLimited : ℕ → (Bytes → Option ℕ) → Task → Type 0
IsLimited cap bounds (entering r) = IsBound bounds r
IsLimited cap bounds (at_swap r loaded) = IsBound bounds r × (loaded < cap)
IsLimited cap bounds (at_account r) = IsBound bounds r
IsLimited cap bounds (at_rate r) = Unit
IsLimited cap bounds (at_ip r) = Unit
IsLimited cap bounds (at_name r tried) = Unit
IsLimited cap bounds (leaving name) = Unit
IsLimited cap bounds (paying debts) = Unit

-- What a section changes of the counters, it changes of the tunnels or of what its call holds.
pub record IsBalanced (bounds : Bytes → Option ℕ) (m : Manager) (t : Task) (out : Manager × Task)
    : Type 0 where
  pub sharded : IsSharded out.0.shards
  pub same_cap : out.0.max_tunnels ≡ m.max_tunnels
  pub within : m.tunnel_count ≤ m.max_tunnels → out.0.tunnel_count ≤ m.max_tunnels
  pub global :
      held_global t ≤ m.tunnel_count
      → out.0.tunnel_count + total any_tunnel m.shards + held_global t
        ≡ m.tunnel_count + total any_tunnel out.0.shards + held_global out.1
  pub account :
      (a : Bytes)
      → a ≢ []
      → held_account a t ≤ tally a m.tunnels_by_account
      → tally a out.0.tunnels_by_account + total (of_account a) m.shards + held_account a t
        ≡ tally a m.tunnels_by_account + total (of_account a) out.0.shards + held_account a out.1
  pub account_within :
      (a : Bytes) (k : ℕ)
      → a ≢ []
      → bounds a ≡ some k
      → tally a m.tunnels_by_account ≤ k
      → tally a out.0.tunnels_by_account ≤ k
  pub limited : IsLimited out.0.max_tunnels bounds out.1

module _ (bounds : Bytes → Option ℕ) (m : Manager) (w : IsSharded m.shards) where
  -- A section that changes nothing, and goes on with as many slots.
  same-IsBalanced :
      (t next : Task)
      → held_global next ≡ held_global t
      → ((a : Bytes) → a ≢ [] → held_account a next ≡ held_account a t)
      → IsLimited m.max_tunnels bounds next
      → IsBalanced bounds m t (m, next)
  same-IsBalanced t next same same_account limit = record {
    sharded = w;
    same_cap = refl;
    within = λ h. h;
    global = λ h. omega (arith, same);
    account = λ a ne h. omega (arith, same_account a ne);
    account_within = λ a k ne e h. h;
    limited = limit;
  }

  load-IsBalanced :
      (r : Registrant) → IsBound bounds r → IsBalanced bounds m (entering r) (load r m)
  unfolding load
  load-IsBalanced r bound = by_room _ refl
    where
      by_room :
          (full : Bool)
          → leb m.max_tunnels m.tunnel_count ≡ full
          → IsBalanced bounds m
              (entering r)
              (if full then (m, paying []) else (m, at_swap r m.tunnel_count))
      by_room true f = same-IsBalanced (entering r) (paying []) refl (λ a ne. refl) tt
      by_room false f =
          same-IsBalanced (entering r) (at_swap r m.tunnel_count) refl (λ a ne. refl)
            (bound, ground arith)

  swap-IsBalanced :
      (r : Registrant) (loaded : ℕ)
      → IsBound bounds r
      → loaded < m.max_tunnels
      → IsBalanced bounds m (at_swap r loaded) (swap r loaded m)
  unfolding swap
  swap-IsBalanced r loaded bound room = by_count _ refl
    where
      by_count :
          (same : Bool)
          → (m.tunnel_count == loaded) ≡ same
          → IsBalanced bounds m (at_swap r loaded) (
              if same
              then (record m { tunnel_count = loaded + 1 }, at_account r)
              else (m, entering r))
      by_count true f = record {
        sharded = w;
        same_cap = refl;
        within = λ h. omega arith;
        global = λ h. ground arith;
        account = λ a ne h. omega arith;
        account_within = λ a k ne e h. h;
        limited = bound;
      }
      by_count false f = same-IsBalanced (at_swap r loaded) (entering r) refl (λ a ne. refl) bound

  take_account-IsBalanced :
      (r : Registrant) → IsBound bounds r → IsBalanced bounds m (at_account r) (take_account r m)
  unfolding take_account
  take_account-IsBalanced r bound = record {
    sharded = ground arith;
    same_cap = ground arith;
    within = λ h. ground arith;
    global = λ h. ground arith;
    account = λ a ne h. ground (
      arith,
      tally-increment r.owner.account_id a m.tunnels_by_account,
      str_eq_iff a r.owner.account_id,
      str_eq_iff r.owner.account_id a,
      is_empty_ne a,
      ne_is_empty a ne,
    );
    account_within = λ a k ne e h. ground (
      arith,
      tally-increment r.owner.account_id a m.tunnels_by_account,
      λ (same : str_eq r.owner.account_id a ≡ true).
          bound k (ap bounds ((str_eq_iff r.owner.account_id a).0 same) ∙ e),
    );
    limited = ground arith;
  }

  take_rate-IsBalanced :
      (now : ℕ) (r : Registrant) → IsBalanced bounds m (at_rate r) (take_rate now r m)
  unfolding take_rate
  take_rate-IsBalanced now r = record {
    sharded = ground arith;
    same_cap = ground arith;
    within = λ h. ground arith;
    global = λ h. ground arith;
    account = λ a ne h. ground arith;
    account_within = λ a k ne e h. ground arith;
    limited = ground arith;
  }

  take_ip-IsBalanced : (r : Registrant) → IsBalanced bounds m (at_ip r) (take_ip r m)
  unfolding take_ip
  take_ip-IsBalanced r = record {
    sharded = ground arith;
    same_cap = ground arith;
    within = λ h. ground arith;
    global = λ h. ground arith;
    account = λ a ne h. ground arith;
    account_within = λ a k ne e h. ground arith;
    limited = ground arith;
  }

  all_debts_global : (r : Registrant) → debts_global (all_debts r) ≡ 1
  all_debts_global r = ground arith

  all_debts_account : (a : Bytes) (r : Registrant) → debts_account a (all_debts r) ≡ slot_of a r
  all_debts_account a r = ground arith

  refused-IsBalanced :
      (r : Registrant) (tried : ℕ) → IsBalanced bounds m (at_name r tried) (m, paying (all_debts r))
  refused-IsBalanced r tried =
      same-IsBalanced (at_name r tried) (paying (all_debts r)) (all_debts_global r)
        (λ a ne. all_debts_account a r) tt

  free_name :
      (name : Bytes) → is_used (get_shard m.shards name) name ≡ false → find m.shards name ≡ none
  unfolding find
  free_name name free =
      none_if (lookup name (get_shard m.shards name).tunnels)
        (sym ((w.at (shard_index name)).marked name) ∙ free)
    where
      none_if : (found : Option Connection) → is_some found ≡ false → found ≡ none
      none_if none h = refl
      none_if (some c) h = cc

  placed-IsBalanced :
      (now : ℕ) (r : Registrant) (tried : ℕ) (next : Task) (name : Bytes)
      → IsBalanced bounds m (at_name r tried) (m, next)
      → IsBalanced bounds m
          (at_name r tried)
          (placed_or m next (register_subdomain now r.ip r.owner m.shards name))
  unfolding register_subdomain new_connection
  placed-IsBalanced now r tried next name otherwise =
      elim (Bool-cases (is_used (get_shard m.shards name) name)) [
        | inl used ↦ rw used otherwise
        | inr free ↦
            let c = owned_connection now r.ip r.owner name in
            rw free (record {
              sharded = put-IsSharded m.shards name c refl w;
              same_cap = refl;
              within = λ h. h;
              global =
                  λ h. omega (arith, total-put any_tunnel m.shards name c w (free_name name free));
              account = λ a ne h.
                  omega (arith, total-put (of_account a) m.shards name c w (free_name name free));
              account_within = λ a k ne e h. h;
              limited = tt;
            })
      ]

  take_name-IsBalanced :
      (now : ℕ) (rand : ℕ → ℕ → ℕ) (r : Registrant) (tried : ℕ)
      → IsBalanced bounds m (at_name r tried) (take_name now rand r tried m)
  unfolding take_name
  take_name-IsBalanced now rand r tried =
      let refused = refused-IsBalanced r tried in
      let again : IsBalanced bounds m (at_name r tried) (m, at_name r (tried + 1)) =
        same-IsBalanced (at_name r tried) (at_name r (tried + 1)) refl (λ a ne. refl) tt in
      let chosen = placed-IsBalanced now r tried (paying (all_debts r)) r.custom refused in
      let drawn =
        placed-IsBalanced now r tried (at_name r (tried + 1)) (candidate rand tried) again in
      ground arith

  leave-IsBalanced : (name : Bytes) → IsBalanced bounds m (leaving name) (leave name m)
  unfolding leave
  leave-IsBalanced name = by_found (find m.shards name) refl
    where
      by_found :
          (found : Option Connection)
          → find m.shards name ≡ found
          → IsBalanced bounds m (leaving name) (left m name found)
      by_found none e = same-IsBalanced (leaving name) (paying []) refl (λ a ne. refl) tt
      by_found (some c) e = record {
        sharded = remove-IsSharded m.shards name w;
        same_cap = refl;
        within = λ h. h;
        global = λ h. omega (arith, total-remove any_tunnel m.shards name c w e);
        account = λ a ne h. omega (arith, total-remove (of_account a) m.shards name c w e);
        account_within = λ a k ne e h. h;
        limited = tt;
      }

  pay-IsBalanced :
      (d : Debt) (debts : List Debt)
      → IsBalanced bounds m (paying (d ∷ debts)) (pay d m, paying debts)
  unfolding pay rollback_global settle_account settle_ip
  pay-IsBalanced owe_global debts = record {
    sharded = w;
    same_cap = refl;
    within = λ h. omega arith;
    global = λ h. omega arith;
    account = λ a ne h. omega arith;
    account_within = λ a k ne e h. h;
    limited = tt;
  }
  pay-IsBalanced (owe_account b) debts = record {
    sharded = ground arith;
    same_cap = ground arith;
    within = λ h. ground arith;
    global = λ h. ground arith;
    account = λ a ne h. ground (
      arith,
      tally-decrement b a m.tunnels_by_account,
      str_eq_iff a b,
      str_eq_iff b a,
      is_empty_ne a,
      ne_is_empty a ne,
    );
    account_within =
        λ a k ne e h. ground (arith, tally-decrement b a m.tunnels_by_account, str_eq_iff b a);
    limited = tt;
  }
  pay-IsBalanced (owe_ip b) debts = record {
    sharded = ground arith;
    same_cap = ground arith;
    within = λ h. ground arith;
    global = λ h. ground arith;
    account = λ a ne h. ground arith;
    account_within = λ a k ne e h. ground arith;
    limited = tt;
  }
  pay-IsBalanced (owe_rate b) debts = record {
    sharded = w;
    same_cap = refl;
    within = λ h. h;
    global = λ h. omega arith;
    account = λ a ne h. omega arith;
    account_within = λ a k ne e h. h;
    limited = tt;
  }

  pub section-IsBalanced :
      (now : ℕ) (rand : ℕ → ℕ → ℕ) (t : Task)
      → IsLimited m.max_tunnels bounds t
      → IsBalanced bounds m t (section now rand t m)
  unfolding section
  section-IsBalanced now rand (entering r) l = load-IsBalanced r l
  section-IsBalanced now rand (at_swap r loaded) l = swap-IsBalanced r loaded l.0 l.1
  section-IsBalanced now rand (at_account r) l = take_account-IsBalanced r l
  section-IsBalanced now rand (at_rate r) l = take_rate-IsBalanced now r
  section-IsBalanced now rand (at_ip r) l = take_ip-IsBalanced r
  section-IsBalanced now rand (at_name r tried) l = take_name-IsBalanced now rand r tried
  section-IsBalanced now rand (leaving name) l = leave-IsBalanced name
  section-IsBalanced now rand (paying []) l =
      same-IsBalanced (paying []) (paying []) refl (λ a ne. refl) tt
  section-IsBalanced now rand (paying (d ∷ debts)) l = pay-IsBalanced d debts
