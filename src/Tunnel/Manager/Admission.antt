-- ===== src/Tunnel/Manager/Admission.antt =====
-- Taking the slots of a registration, and giving them back.
use drip_ex.Base.{
  ltb, leb, Bool-cases, Bytes, str_eq_iff, str_eq_refl, is_empty, tally, increment, tally-increment,
  tally-decrement, Result, ok, err, ℕ, ◌+◌, ◌<◌, ◌≡◌, refl, inl, inr, Bool, true, false, ◌&&◌,
  arith,
}
use drip_ex.Tunnel.RateLimiter.{RateLimiter, check_and_increment, decrement_hits}
use drip_ex.Tunnel.Manager.{
  Step, pass_on, rollback_per_ip, rollback_rate_limit, Manager, Owner, Error, too_many_tunnels,
  rollback_global, rollback_per_account, is_limited, rollback_all, reserve_global, reserve_account,
  reserve_ip, admit, take_ip_slot,
}
use drip_ex.Tunnel.Manager.Books.{SameBooks, IsAdmitted}

module _ (ip : Bytes) (owner : Owner) (m m' : Manager) where
  -- The slots of the account and of the server are given back.
  rollback_two :
      IsAdmitted false ip owner m m' → SameBooks m (rollback_global (rollback_per_account owner m'))
  unfolding rollback_global rollback_per_account
  rollback_two w = record {
    shards = ground (arith, w.shards);
    count = ground (arith, w.count);
    max_tunnels = ground (arith, w.max_tunnels);
    max_tunnels_per_ip = ground (arith, w.max_tunnels_per_ip);
    accounts = λ a. ground (
      arith,
      w.accounts a,
      w.accounts owner.account_id,
      tally-decrement owner.account_id a m'.tunnels_by_account,
      str_eq_refl owner.account_id,
      str_eq_iff owner.account_id a,
    );
    ips = λ j. ground (arith, w.ips j);
  }

  -- All the slots are given back.
  pub rollback-SameBooks :
      IsAdmitted (is_limited ip owner) ip owner m m' → SameBooks m (rollback_all ip owner m')
  unfolding rollback_all rollback_global rollback_per_account rollback_per_ip rollback_rate_limit
  rollback-SameBooks w = record {
    shards = ground (arith, w.shards);
    count = ground (arith, w.count);
    max_tunnels = ground (arith, w.max_tunnels);
    max_tunnels_per_ip = ground (arith, w.max_tunnels_per_ip);
    accounts = λ a. ground (
      arith,
      w.accounts a,
      w.accounts owner.account_id,
      tally-decrement owner.account_id a m'.tunnels_by_account,
      str_eq_refl owner.account_id,
      str_eq_iff owner.account_id a,
    );
    ips = λ j. ground (
      arith,
      w.ips j,
      w.ips ip,
      tally-decrement ip j m'.tunnels_by_ip,
      str_eq_refl ip,
      str_eq_iff ip j,
    );
  }

-- What a step of the admission promises.
abbrev pub Outcome : Bool → Bytes → Owner → Manager → Manager × Result Error (Unit {0}) → Type 0
Outcome limited ip owner m (m', ok _) = IsAdmitted limited ip owner m m'
Outcome limited ip owner m (m', err _) = SameBooks m m'

SameBooks-refl : (m : Manager) → SameBooks m m
SameBooks-refl m = record {
  shards = refl;
  count = refl;
  max_tunnels = refl;
  max_tunnels_per_ip = refl;
  accounts = λ a. refl;
  ips = λ j. refl;
}

-- Another rate limiter changes no book.
abbrev with_limiter : Manager → RateLimiter → Manager
with_limiter m rl = record m { rate_limiter = rl }

module _ (ip : Bytes) (owner : Owner) (m m' : Manager) (w : IsAdmitted false ip owner m m') where
  limiter-IsAdmitted : (rl : RateLimiter) → IsAdmitted false ip owner m (with_limiter m' rl)
  limiter-IsAdmitted rl = record {
    shards = w.shards;
    count = w.count;
    room = w.room;
    max_tunnels = w.max_tunnels;
    max_tunnels_per_ip = w.max_tunnels_per_ip;
    accounts = w.accounts;
    account_room = w.account_room;
    ips = w.ips;
    ip_room = w.ip_room;
  }

  slot-IsAdmitted :
      leb m'.max_tunnels_per_ip (tally ip m'.tunnels_by_ip) ≡ false
      → IsAdmitted true ip owner m (record m' { tunnels_by_ip = increment ip m'.tunnels_by_ip })
  slot-IsAdmitted free = record {
    shards = w.shards;
    count = w.count;
    room = w.room;
    max_tunnels = w.max_tunnels;
    max_tunnels_per_ip = w.max_tunnels_per_ip;
    accounts = w.accounts;
    account_room = w.account_room;
    ips = λ j.
        ground (arith, w.ips j, w.ips ip, tally-increment ip j m'.tunnels_by_ip, str_eq_iff ip j);
    ip_room = λ _. ground (arith, w.ips ip, w.max_tunnels_per_ip);
  }

take_ip_slot-Outcome :
    (ip : Bytes) (owner : Owner) (m m' : Manager)
    → is_limited ip owner ≡ true
    → IsAdmitted false ip owner m m'
    → Outcome true ip owner m (take_ip_slot ip owner m')
unfolding take_ip_slot rollback_rate_limit
take_ip_slot-Outcome ip owner m m' lim w =
    elim (Bool-cases (leb m'.max_tunnels_per_ip (tally ip m'.tunnels_by_ip))) [
      | inl full ↦
          rw (full, lim)
            (rollback_two ip owner m _
              (limiter-IsAdmitted ip owner m m' w (decrement_hits ip m'.rate_limiter)))
      | inr free ↦ rw free (slot-IsAdmitted ip owner m m' w free)
    ]

reserve_ip-Outcome :
    (now : ℕ) (ip : Bytes) (owner : Owner) (m m' : Manager)
    → IsAdmitted false ip owner m m'
    → Outcome (is_limited ip owner) ip owner m (reserve_ip now ip owner m')
unfolding reserve_ip
reserve_ip-Outcome now ip owner m m' w = elim (Bool-cases (is_limited ip owner)) [
  | inl lim ↦ rw lim elim (Bool-cases (check_and_increment now ip m'.rate_limiter).1) [
    | inl passed ↦
        rw passed (take_ip_slot-Outcome ip owner m _ lim (limiter-IsAdmitted ip owner m m' w _))
    | inr over ↦ rw over (rollback_two ip owner m _ (limiter-IsAdmitted ip owner m m' w _))
  ]
  | inr free ↦ rw free w
]

module _ (ip : Bytes) (owner : Owner) (m : Manager) (room : m.tunnel_count < m.max_tunnels) where
  abbrev global_slot : Manager
  global_slot = record m { tunnel_count = m.tunnel_count + 1 }

  refund_global : SameBooks m (rollback_global global_slot)
  unfolding rollback_global
  refund_global = record {
    shards = refl;
    count = omega arith;
    max_tunnels = refl;
    max_tunnels_per_ip = refl;
    accounts = λ a. refl;
    ips = λ j. refl;
  }

  unowned_slot : is_empty owner.account_id ≡ true → IsAdmitted false ip owner m global_slot
  unowned_slot e = record {
    shards = refl;
    count = refl;
    room = room;
    max_tunnels = refl;
    max_tunnels_per_ip = refl;
    accounts = λ a. ground arith;
    account_room = λ f. cc;
    ips = λ j. ground arith;
    ip_room = λ f. cc;
  }

  account_slot :
      is_empty owner.account_id ≡ false
      → (ltb 0 owner.max_tunnels
          && leb owner.max_tunnels (tally owner.account_id m.tunnels_by_account))
        ≡ false
      → IsAdmitted false ip owner m (record global_slot {
        tunnels_by_account = increment owner.account_id m.tunnels_by_account;
      })
  account_slot e free = record {
    shards = refl;
    count = refl;
    room = room;
    max_tunnels = refl;
    max_tunnels_per_ip = refl;
    accounts = λ a. ground (
      arith,
      tally-increment owner.account_id a m.tunnels_by_account,
      str_eq_iff owner.account_id a,
    );
    account_room = λ f pos. ground arith;
    ips = λ j. ground arith;
    ip_room = λ f. cc;
  }

  reserve_account-Outcome : Outcome false ip owner m (reserve_account owner global_slot)
  unfolding reserve_account
  reserve_account-Outcome = elim (Bool-cases (is_empty owner.account_id)) [
    | inl e ↦ rw e (unowned_slot e)
    | inr e ↦
        rw e
          elim (Bool-cases (
            ltb 0 owner.max_tunnels
            && leb owner.max_tunnels (tally owner.account_id m.tunnels_by_account))) [
              | inl full ↦ rw full refund_global
              | inr free ↦ rw free (account_slot e free)
            ]
  ]

-- A later step runs only where the one before went well.
pass_on-Outcome :
    (limited limited' : Bool) (ip : Bytes) (owner : Owner) (m : Manager)
    (r : Manager × Result Error (Unit {0})) (f : Unit {0} → Step (Unit {0}))
    → Outcome limited ip owner m r
    → ((m' : Manager) → IsAdmitted limited ip owner m m' → Outcome limited' ip owner m (f tt m'))
    → Outcome limited' ip owner m (pass_on f r)
pass_on-Outcome limited limited' ip owner m (m', ok tt) f w k = k m' w
pass_on-Outcome limited limited' ip owner m (m', err e) f w k = w

reserve_global_full :
    (m : Manager)
    → leb m.max_tunnels m.tunnel_count ≡ true
    → reserve_global m ≡ (m, err too_many_tunnels)
unfolding reserve_global
reserve_global_full m full = rw full refl

pub reserve_global_free :
    (m : Manager)
    → leb m.max_tunnels m.tunnel_count ≡ false
    → reserve_global m ≡ (record m { tunnel_count = m.tunnel_count + 1 }, ok tt)
unfolding reserve_global
reserve_global_free m free = rw free refl

-- Admission takes every slot, or leaves all the books as they were.
pub admit-Outcome :
    (now : ℕ) (ip : Bytes) (owner : Owner) (m : Manager)
    → Outcome (is_limited ip owner) ip owner m (admit now ip owner m)
unfolding admit
admit-Outcome now ip owner m = elim (Bool-cases (leb m.max_tunnels m.tunnel_count)) [
  | inl full ↦ rw (reserve_global_full m full) (SameBooks-refl m)
  | inr free ↦ rw (reserve_global_free m free) (
      pass_on-Outcome false (is_limited ip owner) ip owner m _ (λ _. reserve_ip now ip owner)
        (reserve_account-Outcome ip owner m (ground arith)) (reserve_ip-Outcome now ip owner m))
]
