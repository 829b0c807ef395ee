-- ===== src/Tunnel/Manager/Registry.antt =====
-- Registration as a whole: it adds one tunnel under a free name, or changes no book.
use drip_ex.Base.{
  Bool-cases, Option-cases, Bytes, Result, ok, err, ℕ, zero, suc, ◌+◌, ◌≤◌, ◌≡◌, refl, sym, subst,
  inl, inr, true, false, Option, none, some, List, [], ◌∷◌, arith,
}
use drip_ex.Names.{validate_subdomain, is_reserved, generate_subdomain, IsBelow}
use drip_ex.Names.Labels.{validate-generate_subdomain}
use drip_ex.Tunnel.Shards.{Shard, shard_index, find, put_tunnel}
use drip_ex.Tunnel.Shards.Counting.{IsSharded}
use drip_ex.Tunnel.Manager.{
  Manager, Owner, Error, pass_on, is_limited, owned_connection, register_subdomain, try_names,
  found_or, subdomain_generation_failed, claim_custom, claim_random, claim, settle, name_tunnel,
  register_owned, max_attempts,
}
use drip_ex.Tunnel.Manager.Books.{SameBooks, IsAdmitted}
use drip_ex.Tunnel.Manager.Admission.{Outcome, admit-Outcome, rollback-SameBooks}

-- The random numbers pick characters of the alphabet.
abbrev pub IsRandom : (ℕ → ℕ → ℕ) → Type 0
IsRandom rand = (i : ℕ) → IsBelow 36 (rand i)

module _ (now : ℕ) (ip : Bytes) (owner : Owner) where
  -- A free name, valid and not set aside, now carries the tunnel.
  pub record IsClaimed (shards : List Shard) (name : Bytes) (shards' : List Shard) : Type 0 where
    pub fresh : find shards name ≡ none
    pub valid : validate_subdomain name ≡ true
    pub unreserved : is_reserved name ≡ false
    pub placed : shards' ≡ put_tunnel shards name (owned_connection now ip owner name)

  module _ (shards : List Shard) (w : IsSharded shards) where
    abbrev place : Bytes → Option (List Shard)
    place = register_subdomain now ip owner shards

    place_lem :
        (name : Bytes) (shards' : List Shard)
        → place name ≡ some shards'
        → validate_subdomain name ≡ true
        → is_reserved name ≡ false
        → IsClaimed shards name shards'
    unfolding register_subdomain find
    place_lem name shards' e v u = record {
      fresh = ground (arith, (w.at (shard_index name)).marked name);
      valid = v;
      unreserved = u;
      placed = ground arith;
    }

    -- What a claim promises.
    abbrev Claimed : Result Error (Bytes × List Shard) → Type 0
    Claimed (ok (name, shards')) = IsClaimed shards name shards'
    Claimed (err e) = Unit

    abbrev Tried : Option (Bytes × List Shard) → Type 0
    Tried none = Unit
    Tried (some (name, shards')) = IsClaimed shards name shards'

    try_names-Tried :
        (rand : ℕ → ℕ → ℕ) (len n i : ℕ)
        → IsRandom rand
        → 3 ≤ len
        → len ≤ 63
        → Tried (try_names rand place len n i)
    unfolding try_names
    try_names-Tried rand len zero i r lo hi = tt
    try_names-Tried rand len (suc n) i r lo hi =
        let rest = try_names-Tried rand len n (i + 1) r lo hi in
        let name = generate_subdomain len (rand i) in
        elim (Bool-cases (is_reserved name)) [
          | inl taboo ↦ rw taboo rest
          | inr fine ↦ rw fine elim (Option-cases (place name)) [
            | inl e ↦ rw e rest
            | inr (shards', e) ↦ rw e (
                place_lem name shards' e (validate-generate_subdomain len (rand i) (r i) lo hi)
                  fine)
          ]
        ]

    found_or-Claimed :
        (o : Option (Bytes × List Shard)) (r : Result Error (Bytes × List Shard))
        → Tried o
        → Claimed r
        → Claimed (found_or o r)
    found_or-Claimed none r t c = c
    found_or-Claimed (some (name, shards')) r t c = t

    claim_custom-Claimed : (name : Bytes) → Claimed (claim_custom place name)
    unfolding claim_custom
    claim_custom-Claimed name = elim (Bool-cases (validate_subdomain name)) [
      | inr bad ↦ rw bad tt
      | inl v ↦ rw v elim (Bool-cases (is_reserved name)) [
        | inl taboo ↦ rw taboo tt
        | inr u ↦ rw u elim (Option-cases (place name)) [
          | inl e ↦ rw e tt
          | inr (shards', e) ↦ rw e (place_lem name shards' e v u)
        ]
      ]
    ]

    claim_random-Claimed : (rand : ℕ → ℕ → ℕ) → IsRandom rand → Claimed (claim_random rand place)
    unfolding claim_random
    claim_random-Claimed rand r =
        found_or-Claimed _ _ (try_names-Tried rand 6 max_attempts 0 r (omega arith) (omega arith)) (
          found_or-Claimed _ (err subdomain_generation_failed)
            (try_names-Tried rand 8 max_attempts max_attempts r (omega arith) (omega arith)) tt)

    pub claim-Claimed :
        (rand : ℕ → ℕ → ℕ) (custom : Bytes) → IsRandom rand → Claimed (claim rand place custom)
    unfolding claim
    claim-Claimed rand [] r = claim_random-Claimed rand r
    claim-Claimed rand (c ∷ s) r = claim_custom-Claimed (c ∷ s)

  -- One more tunnel stands in the table, under a name that was free, and its slots are taken.
  pub record IsRegistered (m m' : Manager) (name : Bytes) : Type 0 where
    pub claimed : IsClaimed m.shards name m'.shards
    pub admitted : IsAdmitted (is_limited ip owner) ip owner m (record m' { shards = m.shards })

  -- What registration promises: a new tunnel, or the books as they were.
  abbrev pub Registration : Manager → Manager × Result Error Bytes → Type 0
  Registration m (m', ok name) = IsRegistered m m' name
  Registration m (m', err e) = SameBooks m m'

  settle-Registration :
      (m m' : Manager) (r : Result Error (Bytes × List Shard)) (w : IsSharded m'.shards)
      → IsAdmitted (is_limited ip owner) ip owner m m'
      → Claimed m'.shards w r
      → Registration m (settle ip owner r m')
  unfolding settle
  settle-Registration m m' (ok (name, shards')) w a c = record {
    claimed = subst (λ t. IsClaimed t name shards') a.shards c;
    admitted = record {
      shards = refl;
      count = a.count;
      room = a.room;
      max_tunnels = a.max_tunnels;
      max_tunnels_per_ip = a.max_tunnels_per_ip;
      accounts = a.accounts;
      account_room = a.account_room;
      ips = a.ips;
      ip_room = a.ip_room;
    };
  }
  settle-Registration m m' (err e) w a c = rollback-SameBooks ip owner m m' a

  then_name-Registration :
      (rand : ℕ → ℕ → ℕ) (custom : Bytes) (m : Manager) (r : Manager × Result Error (Unit {0}))
      → IsRandom rand
      → IsSharded m.shards
      → Outcome (is_limited ip owner) ip owner m r
      → Registration m (pass_on (λ _. name_tunnel now rand custom ip owner) r)
  unfolding name_tunnel
  then_name-Registration rand custom m (m', ok a) r w o =
      let w' : IsSharded m'.shards = subst IsSharded (sym o.shards) w in
      settle-Registration m m' _ w' o (claim-Claimed m'.shards w' rand custom r)
  then_name-Registration rand custom m (m', err e) r w o = o

  -- A registration adds one tunnel, under a free, valid and unreserved name, and takes its slots;
  -- or it fails and leaves the table and every counter as they were.
  pub register-Registration :
      (rand : ℕ → ℕ → ℕ) (custom : Bytes) (m : Manager)
      → IsRandom rand
      → IsSharded m.shards
      → Registration m (register_owned now rand custom ip owner m)
  unfolding register_owned
  register-Registration rand custom m r w =
      then_name-Registration rand custom m _ r w (admit-Outcome now ip owner m)
