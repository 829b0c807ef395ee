-- ===== src/Tunnel/Manager/Validity.antt =====
-- The counters agree with the table after every operation.
use drip_ex.Base.{
  if◌then◌else◌, Bool-cases, Option-cases, Bytes, str_eq, str_eq_iff, is_empty, lookup,
  tally-decrement, Result, ok, err, ℕ, zero, suc, ◌+◌, ◌-◌, ◌≡◌, refl, sym, ap, subst, ◌∙◌, ◌↔◌,
  inl, inr, Bool, true, none, some, List, [], ◌∷◌, arith,
}
use drip_ex.Tunnel.RateLimiter.{cleanup}
use drip_ex.Tunnel.Shards.{new_connection, Connection, shard_at, find, total, remove_tunnel}
use drip_ex.Tunnel.Shards.Counting.{
  IsSharded, put-IsSharded, remove-IsSharded, total-put, total-remove,
}
use drip_ex.Tunnel.Manager.{
  Manager, Owner, Error, is_limited, owned_connection, register_owned, unregister, unregister_all,
  settle_account, settle_ip, stale_names, clean_shards, cleanup_stale, shutdown, num_shards,
}
use drip_ex.Tunnel.Manager.Books.{
  any_tunnel, of_account, unowned_from, IsValid, HasIpBooks, SameBooks, replicate-IsSharded,
  no_tunnels,
}
use drip_ex.Tunnel.Manager.Registry.{IsRandom, IsRegistered, Registration, register-Registration}

pub str_eq_sym : (a b : Bytes) → str_eq a b ≡ str_eq b a
str_eq_sym a b = ground (arith, str_eq_iff a b, str_eq_iff b a)

pub is_empty_iff : (s : Bytes) → (is_empty s ≡ true) ↔ (s ≡ [])
is_empty_iff [] = ground arith
is_empty_iff (c ∷ s) = ground arith

SameBooks-IsValid : (m m' : Manager) → SameBooks m m' → IsValid m → IsValid m'
SameBooks-IsValid m m' s v = record {
  sharded = subst IsSharded (sym s.shards) v.sharded;
  counted = s.count ∙ v.counted ∙ ap (total any_tunnel) (sym s.shards);
  capped = omega (arith, s.count, s.max_tunnels, v.capped);
  accounts = λ a ne. s.accounts a ∙ v.accounts a ne ∙ ap (total (of_account a)) (sym s.shards);
}

SameBooks-HasIpBooks : (m m' : Manager) → SameBooks m m' → HasIpBooks m → HasIpBooks m'
SameBooks-HasIpBooks m m' s v = record {
  capped = λ j. omega (arith, s.ips j, s.max_tunnels_per_ip, v.capped j);
  backed = λ j ne. omega (arith, s.ips j, v.backed j ne, ap (total (unowned_from j)) s.shards);
}

module _ (now : ℕ) (ip : Bytes) (owner : Owner) (m m' : Manager) (name : Bytes) where
  abbrev newcomer : Connection
  newcomer = owned_connection now ip owner name

  module _ (w : IsSharded m.shards) (r : IsRegistered now ip owner m m' name) where
    pub total-registered :
        (p : Connection → Bool)
        → total p m'.shards ≡ (if p newcomer then 1 else 0) + total p m.shards
    total-registered p = rw r.claimed.placed (total-put p m.shards name newcomer w r.claimed.fresh)

  pub IsRegistered-IsValid : IsRegistered now ip owner m m' name → IsValid m → IsValid m'
  unfolding new_connection
  IsRegistered-IsValid r v = record {
    sharded = rw r.claimed.placed (put-IsSharded m.shards name newcomer refl v.sharded);
    counted = omega (arith, r.admitted.count, v.counted, total-registered v.sharded r any_tunnel);
    capped = omega (arith, r.admitted.count, r.admitted.room, r.admitted.max_tunnels);
    accounts = λ a ne. ground (
      arith,
      r.admitted.accounts a,
      v.accounts a ne,
      total-registered v.sharded r (of_account a),
      str_eq_sym a owner.account_id,
      str_eq_iff a owner.account_id,
      is_empty_iff owner.account_id,
    );
  }

  IsRegistered-HasIpBooks :
      IsRegistered now ip owner m m' name → IsSharded m.shards → HasIpBooks m → HasIpBooks m'
  unfolding new_connection is_limited
  IsRegistered-HasIpBooks r w v = record {
    capped = λ j. ground (
      arith,
      r.admitted.ips j,
      r.admitted.ip_room,
      r.admitted.max_tunnels_per_ip,
      v.capped j,
      str_eq_iff ip j,
    );
    backed = λ j ne. ground (
      arith,
      r.admitted.ips j,
      v.backed j ne,
      total-registered w r (unowned_from j),
      str_eq_sym ip j,
    );
  }

module _ (now : ℕ) (rand : ℕ → ℕ → ℕ) (custom ip : Bytes) (owner : Owner) (m : Manager) where
  Registration-IsValid :
      (r : Manager × Result Error Bytes) → Registration now ip owner m r → IsValid m → IsValid r.0
  Registration-IsValid (m', ok name) g v = IsRegistered-IsValid now ip owner m m' name g v
  Registration-IsValid (m', err e) g v = SameBooks-IsValid m m' g v

  Registration-HasIpBooks :
      (r : Manager × Result Error Bytes)
      → Registration now ip owner m r
      → IsValid m
      → HasIpBooks m
      → HasIpBooks r.0
  Registration-HasIpBooks (m', ok name) g v b =
      IsRegistered-HasIpBooks now ip owner m m' name g v.sharded b
  Registration-HasIpBooks (m', err e) g v b = SameBooks-HasIpBooks m m' g b

  -- Registration, whether it succeeds or fails, keeps the table well formed, the global counter
  -- equal to the number of tunnels and within the cap, each account's counter equal to the number
  -- of its tunnels, and each address's counter within its cap and its tunnels, if the random
  -- numbers are below 36.
  pub register_owned-IsValid :
      IsRandom rand
      → IsValid m
      → HasIpBooks m
      → IsValid (register_owned now rand custom ip owner m).0
        × HasIpBooks (register_owned now rand custom ip owner m).0
  register_owned-IsValid r v b =
      let g = register-Registration now ip owner rand custom m r v.sharded in
      (Registration-IsValid _ g v, Registration-HasIpBooks _ g v b)

-- The tunnel that `unregister` finds.
module _ (name : Bytes) (m : Manager) where
  pub unregister_absent : find m.shards name ≡ none → unregister name m ≡ m
  unfolding unregister
  unregister_absent e = rw (e, unregister) refl

  module _ (c : Connection) (e : find m.shards name ≡ some c) where
    abbrev removed : Manager
    removed = settle_ip c.remote_ip (
        settle_account c.account_id
          (record m { shards = remove_tunnel m.shards name; tunnel_count = m.tunnel_count - 1 }))

    pub unregister_present : unregister name m ≡ removed
    unfolding unregister
    unregister_present = rw (e, unregister) refl

    removed-IsValid : IsValid m → IsValid removed
    unfolding settle_ip settle_account
    removed-IsValid v = record {
      sharded = ground (arith, remove-IsSharded m.shards name v.sharded);
      counted = ground (arith, v.counted, total-remove any_tunnel m.shards name c v.sharded e);
      capped = ground (arith, v.capped);
      accounts = λ a ne. ground (
        arith,
        v.accounts a ne,
        total-remove (of_account a) m.shards name c v.sharded e,
        tally-decrement c.account_id a m.tunnels_by_account,
        str_eq_sym a c.account_id,
        str_eq_iff a c.account_id,
        is_empty_iff c.account_id,
      );
    }

    removed-HasIpBooks : IsValid m → HasIpBooks m → HasIpBooks removed
    unfolding settle_ip settle_account
    removed-HasIpBooks v b = record {
      capped = λ j. ground (
        arith,
        b.capped j,
        tally-decrement c.remote_ip j m.tunnels_by_ip,
        str_eq_iff c.remote_ip j,
      );
      backed = λ j ne. ground (
        arith,
        b.backed j ne,
        total-remove (unowned_from j) m.shards name c v.sharded e,
        tally-decrement c.remote_ip j m.tunnels_by_ip,
        str_eq_sym j c.remote_ip,
        str_eq_iff j c.remote_ip,
        is_empty_iff c.remote_ip,
      );
    }

  -- Unregistering a name, whether a tunnel has it or not, keeps the table well formed, the global
  -- counter equal to the number of tunnels and within the cap, each account's counter equal to the
  -- number of its tunnels, and each address's counter within its cap and its tunnels.
  pub unregister-IsValid :
      IsValid m → HasIpBooks m → IsValid (unregister name m) × HasIpBooks (unregister name m)
  unregister-IsValid v b = elim (Option-cases (find m.shards name)) [
    | inl e ↦ rw (unregister_absent e) (v, b)
    | inr (c, e) ↦ rw (unregister_present c e) (removed-IsValid c e v, removed-HasIpBooks c e v b)
  ]

pub unregister_all-IsValid :
    (names : List Bytes) (m : Manager)
    → IsValid m
    → HasIpBooks m
    → IsValid (unregister_all names m) × HasIpBooks (unregister_all names m)
unfolding unregister_all
unregister_all-IsValid [] m v b = (v, b)
unregister_all-IsValid (name ∷ names) m v b =
    let (v', b') = unregister-IsValid name m v b in unregister_all-IsValid names _ v' b'

clean_shards-IsValid :
    (now timeout n i : ℕ) (m : Manager) (cleaned : ℕ)
    → IsValid m
    → HasIpBooks m
    → IsValid (clean_shards now timeout n i (m, cleaned)).0
      × HasIpBooks (clean_shards now timeout n i (m, cleaned)).0
unfolding clean_shards
clean_shards-IsValid now timeout zero i m cleaned v b = (v, b)
clean_shards-IsValid now timeout (suc n) i m cleaned v b =
    let (v', b') =
      unregister_all-IsValid (stale_names now timeout (shard_at m.shards i).tunnels) m v b in
    clean_shards-IsValid now timeout n (i + 1) _ _ v' b'

abbrev limiter_cleaned : ℕ → Manager → Manager
limiter_cleaned now m = record m { rate_limiter = (cleanup now m.rate_limiter).0 }

limiter_cleaned-IsValid : (now : ℕ) (m : Manager) → IsValid m → IsValid (limiter_cleaned now m)
limiter_cleaned-IsValid now m v = record {
  sharded = v.sharded;
  counted = v.counted;
  capped = v.capped;
  accounts = v.accounts;
}

limiter_cleaned-HasIpBooks :
    (now : ℕ) (m : Manager) → HasIpBooks m → HasIpBooks (limiter_cleaned now m)
limiter_cleaned-HasIpBooks now m b = record { capped = b.capped; backed = b.backed }

-- The removal of stale tunnels keeps the table well formed, the global counter equal to the number
-- of tunnels and within the cap, each account's counter equal to the number of its tunnels, and
-- each address's counter within its cap and its tunnels.
pub cleanup_stale-IsValid :
    (now timeout : ℕ) (m : Manager)
    → IsValid m
    → HasIpBooks m
    → IsValid (cleanup_stale now timeout m).0 × HasIpBooks (cleanup_stale now timeout m).0
unfolding cleanup_stale
cleanup_stale-IsValid now timeout m v b =
    let (v', b') = clean_shards-IsValid now timeout num_shards 0 m 0 v b in
    (limiter_cleaned-IsValid now _ v', limiter_cleaned-HasIpBooks now _ b')

-- Shutdown keeps the table well formed, the global counter equal to the number of tunnels and
-- within the cap, and each account's counter equal to the number of its tunnels.
pub shutdown-IsValid : (m : Manager) → IsValid m → IsValid (shutdown m)
unfolding shutdown lookup
shutdown-IsValid m v = elim (Bool-cases m.stopped) [
  | inl done ↦ simp done v
  | inr live ↦ rw live (record {
    sharded = replicate-IsSharded;
    counted = sym (no_tunnels any_tunnel);
    capped = omega arith;
    accounts = λ a ne. sym (no_tunnels (of_account a));
  })
]
