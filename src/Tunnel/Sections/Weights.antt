-- ===== src/Tunnel/Sections/Weights.antt =====
-- How many sections a call has left at most: a round of the compare-and-swap loop fails only where
-- another call has changed the counter, and each call changes it at most twice.
use drip_ex.Base.{
  leb, ◌==◌, if◌then◌else◌, Bool, true, false, inl, inr, ◌⊎◌, length, Option, none, some, Bytes, ℕ,
  ◌+◌, ◌-◌, ◌<◌, ◌≡◌, refl, List, [], ◌∷◌, arith,
}
use drip_ex.Tunnel.Shards.{Connection, find}
use drip_ex.Tunnel.Manager.{Manager, settle_account, settle_ip}
use drip_ex.Tunnel.Sections.{
  Registrant, Debt, owe_global, owe_account, owe_ip, owe_rate, Task, entering, at_swap, at_account,
  at_rate, at_ip, at_name, leaving, paying, pay, load, swap, left, take_account, take_rate, take_ip,
  take_name, leave, section,
}

-- The sections that a call has left where no swap fails.
abbrev pub sections_left : Task → ℕ
sections_left (entering r) = 74
sections_left (at_swap r loaded) = 73
sections_left (at_account r) = 72
sections_left (at_rate r) = 71
sections_left (at_ip r) = 70
sections_left (at_name r tried) = 5 + (64 - tried)
sections_left (leaving name) = 4
sections_left (paying debts) = length debts

abbrev pub charge_debts : ℕ → List Debt → ℕ
charge_debts n [] = 0
charge_debts n (owe_global ∷ debts) = n + charge_debts n debts
charge_debts n (owe_account account ∷ debts) = charge_debts n debts
charge_debts n (owe_ip ip ∷ debts) = charge_debts n debts
charge_debts n (owe_rate ip ∷ debts) = charge_debts n debts

-- A charge of `n` for each change of the global counter that the call can still make.
abbrev pub charge : ℕ → Task → ℕ
charge n (entering r) = n + n
charge n (at_swap r loaded) = n + n
charge n (at_account r) = n
charge n (at_rate r) = n
charge n (at_ip r) = n
charge n (at_name r tried) = n
charge n (leaving name) = n
charge n (paying debts) = charge_debts n debts

-- A swap that is bound to fail costs another round.
abbrev pub retry : ℕ → Task → ℕ
retry count (at_swap r loaded) = if count == loaded then 0 else 2
retry count other = 0

abbrev pub weight : ℕ → ℕ → Task → ℕ
weight n count t = sections_left t + charge n t + retry count t

unfoldable pub is_done : Task → Bool
is_done (paying []) = true
is_done other = false

-- What a section spends: all of the charge where it changes the counter.
abbrev pub Spends : ℕ → Manager → Task → Manager × Task → Type 0
Spends n m t out =
    ((out.0.tunnel_count ≡ m.tunnel_count)
      × (weight n m.tunnel_count out.1 < weight n m.tunnel_count t))
    ⊎ (weight n m.tunnel_count out.1 + n < weight n m.tunnel_count t)

module _ (n : ℕ) (m : Manager) where
  load-Spends : (r : Registrant) → Spends n m (entering r) (load r m)
  unfolding load
  load-Spends r = by_room (leb m.max_tunnels m.tunnel_count)
    where
      by_room :
          (full : Bool)
          → Spends n m (entering r) (if full then (m, paying []) else (m, at_swap r m.tunnel_count))
      by_room true = inl (refl, omega arith)
      by_room false = inl (refl, ground arith)

  swap-Spends : (r : Registrant) (loaded : ℕ) → Spends n m (at_swap r loaded) (swap r loaded m)
  unfolding swap
  swap-Spends r loaded = by_count _ refl
    where
      by_count :
          (same : Bool)
          → (m.tunnel_count == loaded) ≡ same
          → Spends n m (at_swap r loaded) (
              if same
              then (record m { tunnel_count = loaded + 1 }, at_account r)
              else (m, entering r))
      by_count true f = inr (ground arith)
      by_count false f = inl (refl, ground arith)

  take_account-Spends : (r : Registrant) → Spends n m (at_account r) (take_account r m)
  unfolding take_account
  take_account-Spends r = inl (ground arith, ground arith)

  take_rate-Spends : (now : ℕ) (r : Registrant) → Spends n m (at_rate r) (take_rate now r m)
  unfolding take_rate
  take_rate-Spends now r = inl (ground arith, ground arith)

  take_ip-Spends : (r : Registrant) → Spends n m (at_ip r) (take_ip r m)
  unfolding take_ip
  take_ip-Spends r = inl (ground arith, ground arith)

  take_name-Spends :
      (now : ℕ) (rand : ℕ → ℕ → ℕ) (r : Registrant) (tried : ℕ)
      → Spends n m (at_name r tried) (take_name now rand r tried m)
  unfolding take_name
  take_name-Spends now rand r tried = inl (ground arith, ground arith)

  leave-Spends : (name : Bytes) → Spends n m (leaving name) (leave name m)
  unfolding leave
  leave-Spends name = by_found (find m.shards name)
    where
      by_found : (found : Option Connection) → Spends n m (leaving name) (left m name found)
      by_found none = inl (refl, omega arith)
      by_found (some c) = inl (refl, omega arith)

  pay-Spends :
      (d : Debt) (debts : List Debt) → Spends n m (paying (d ∷ debts)) (pay d m, paying debts)
  unfolding pay settle_account settle_ip
  pay-Spends owe_global debts = inr (omega arith)
  pay-Spends (owe_account a) debts = inl (ground arith, omega arith)
  pay-Spends (owe_ip ip) debts = inl (ground arith, omega arith)
  pay-Spends (owe_rate ip) debts = inl (refl, omega arith)

  pub section-Spends :
      (now : ℕ) (rand : ℕ → ℕ → ℕ) (t : Task)
      → is_done t ≡ false
      → Spends n m t (section now rand t m)
  unfolding section is_done
  section-Spends now rand (entering r) h = load-Spends r
  section-Spends now rand (at_swap r loaded) h = swap-Spends r loaded
  section-Spends now rand (at_account r) h = take_account-Spends r
  section-Spends now rand (at_rate r) h = take_rate-Spends now r
  section-Spends now rand (at_ip r) h = take_ip-Spends r
  section-Spends now rand (at_name r tried) h = take_name-Spends now rand r tried
  section-Spends now rand (leaving name) h = leave-Spends name
  section-Spends now rand (paying []) h = cc
  section-Spends now rand (paying (d ∷ debts)) h = pay-Spends d debts
