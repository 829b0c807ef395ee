-- ===== src/Tunnel/Shards/Counting.antt =====
-- The shards hold each name once, in the shard of its hash; adding and removing a tunnel moves the
-- counts by one.
use drip_ex.Base.{
  if◌then◌else◌, is_some, length, set, length-set, get_or-set_self, get_or-set_ne, Bytes, str_eq,
  str_eq_iff, lookup, insert, delete, lookup-insert, lookup-delete, Distinct, insert-Distinct,
  delete-Distinct, count, count-insert, count-replace, count-delete, ℕ, zero, suc, ◌+◌, ◌<◌, ◌≡◌,
  refl, ap, subst, ◌∙◌, Bool, true, false, Option, none, some, List, [], ◌∷◌, arith, ℕ_discrete,
}
use drip_ex.Tunnel.Shards.{
  Connection, Shard, empty_shard, shard_index, shard_at, get_shard, is_used, put_tunnel,
  remove_tunnel, find, total,
}

pub shard_index-lt : (name : Bytes) → shard_index name < 32
unfolding shard_index
shard_index-lt name = omega arith

total-set :
    (p : Connection → Bool) (shards : List Shard) (i : ℕ) (s : Shard)
    → i < length shards
    → total p (set shards i s) + count p (shard_at shards i).tunnels
      ≡ total p shards + count p s.tunnels
unfolding total
total-set p [] i s h = elim h [ ]
total-set p (t ∷ shards) zero s h = omega arith
total-set p (t ∷ shards) (suc i) s h = omega (arith, total-set p shards i s)

-- What holds of the i-th shard: Go's maps have distinct keys, `used` marks the names of `tunnels`,
-- and each name stands in the shard of its hash, with a connection of that name.
pub record IsShard (i : ℕ) (s : Shard) : Type 0 where
  pub distinct : Distinct s.tunnels
  pub marked : (name : Bytes) → is_used s name ≡ is_some (lookup name s.tunnels)
  pub placed :
      (name : Bytes) (c : Connection)
      → lookup name s.tunnels ≡ some c
      → (shard_index name ≡ i) × (c.subdomain ≡ name)

pub record IsSharded (shards : List Shard) : Type 0 where
  pub size : length shards ≡ 32
  pub at : (i : ℕ) → IsShard i (shard_at shards i)

pub empty-IsShard : (i : ℕ) → IsShard i empty_shard
unfolding lookup
empty-IsShard i = record { distinct = tt; marked = λ name. refl; placed = λ name c e. cc }

module _ (name : Bytes) (c : Connection) (same : c.subdomain ≡ name) where
  insert-IsShard :
      (s : Shard)
      → IsShard (shard_index name) s
      → IsShard
          (shard_index name)
          (record { tunnels = insert name c s.tunnels; used = insert name true s.used })
  insert-IsShard s v = record {
    distinct = insert-Distinct name c s.tunnels v.distinct;
    marked = λ j.
        ground
          (arith, v.marked j, lookup-insert name j c s.tunnels, lookup-insert name j true s.used);
    placed =
        λ j d e. ground (arith, v.placed j d, lookup-insert name j c s.tunnels, str_eq_iff name j);
  }

delete-IsShard :
    (i : ℕ) (name : Bytes) (s : Shard)
    → IsShard i s
    → IsShard i (record { tunnels = delete name s.tunnels; used = delete name s.used })
delete-IsShard i name s v = record {
  distinct = delete-Distinct name s.tunnels v.distinct;
  marked =
      λ j. ground (arith, v.marked j, lookup-delete name j s.tunnels, lookup-delete name j s.used);
  placed = λ j d e. ground (arith, v.placed j d, lookup-delete name j s.tunnels);
}

-- A shard is replaced.
set-IsSharded :
    (shards : List Shard) (i : ℕ) (s : Shard)
    → i < 32
    → IsShard i s
    → IsSharded shards
    → IsSharded (set shards i s)
set-IsSharded shards i s lt v w = record {
  size = length-set shards i s ∙ w.size;
  at = λ j. elim (ℕ_discrete i j) [
    | yes e ↦
        subst (λ k. IsShard k (shard_at (set shards i s) k)) e
          (rw (get_or-set_self shards i s empty_shard (omega (arith, w.size))) v)
    | no ne ↦ rw (get_or-set_ne shards i j s empty_shard ne) (w.at j)
  ];
}

pub put-IsSharded :
    (shards : List Shard) (name : Bytes) (c : Connection)
    → c.subdomain ≡ name
    → IsSharded shards
    → IsSharded (put_tunnel shards name c)
unfolding put_tunnel
put-IsSharded shards name c same w =
    set-IsSharded shards (shard_index name) _ (shard_index-lt name)
      (insert-IsShard name c same _ (w.at (shard_index name))) w

pub remove-IsSharded :
    (shards : List Shard) (name : Bytes) → IsSharded shards → IsSharded (remove_tunnel shards name)
unfolding remove_tunnel
remove-IsSharded shards name w =
    set-IsSharded shards (shard_index name) _ (shard_index-lt name)
      (delete-IsShard (shard_index name) name _ (w.at (shard_index name))) w

shard_index-eq : (name j : Bytes) → str_eq name j ≡ true → shard_index name ≡ shard_index j
shard_index-eq name j e = ap shard_index ((str_eq_iff name j).0 e)

-- The shard of a name is replaced by one that differs at the name alone.
replace-find :
    (shards : List Shard) (name j : Bytes) (s : Shard) (v : Option Connection)
    → IsSharded shards
    → lookup j s.tunnels ≡ (if str_eq name j then v else lookup j (get_shard shards name).tunnels)
    → find (set shards (shard_index name) s) j ≡ (if str_eq name j then v else find shards j)
unfolding find
replace-find shards name j s v w law = elim (ℕ_discrete (shard_index name) (shard_index j)) [
  | yes e ↦ rw (← e, get_or-set_self shards (shard_index name) s empty_shard lt) law
  | no ne ↦
      let other : str_eq name j ≡ false = ground (arith, shard_index-eq name j) in
      rw (other, get_or-set_ne shards (shard_index name) (shard_index j) s empty_shard ne) refl
]
  where
    lt : shard_index name < length shards
    lt = rw w.size (shard_index-lt name)

pub find-put :
    (shards : List Shard) (name j : Bytes) (c : Connection)
    → IsSharded shards
    → find (put_tunnel shards name c) j ≡ (if str_eq name j then some c else find shards j)
unfolding put_tunnel
find-put shards name j c w = replace-find shards name j _ (some c) w (lookup-insert name j c _)

pub find-remove :
    (shards : List Shard) (name j : Bytes)
    → IsSharded shards
    → find (remove_tunnel shards name) j ≡ (if str_eq name j then none else find shards j)
unfolding remove_tunnel
find-remove shards name j w = replace-find shards name j _ none w (lookup-delete name j _)

pub total-put :
    (p : Connection → Bool) (shards : List Shard) (name : Bytes) (c : Connection)
    → IsSharded shards
    → find shards name ≡ none
    → total p (put_tunnel shards name c) ≡ (if p c then 1 else 0) + total p shards
unfolding put_tunnel find
total-put p shards name c w h =
    let s = get_shard shards name in
    omega (
      arith,
      total-set p shards (shard_index name)
          (record { tunnels = insert name c s.tunnels; used = insert name true s.used })
          (rw w.size (shard_index-lt name)),
      count-insert p name c s.tunnels h,
    )

pub total-remove :
    (p : Connection → Bool) (shards : List Shard) (name : Bytes) (c : Connection)
    → IsSharded shards
    → find shards name ≡ some c
    → (if p c then 1 else 0) + total p (remove_tunnel shards name) ≡ total p shards
unfolding remove_tunnel find
total-remove p shards name c w h =
    let s = get_shard shards name in
    omega (
      arith,
      total-set p shards (shard_index name)
          (record { tunnels = delete name s.tunnels; used = delete name s.used })
          (rw w.size (shard_index-lt name)),
      count-delete p name c s.tunnels (w.at (shard_index name)).distinct h,
    )

-- A tunnel that takes the place of another counts as that one did.
pub total-replace :
    (p : Connection → Bool) (shards : List Shard) (name : Bytes) (c d : Connection)
    → IsSharded shards
    → find shards name ≡ some c
    → p d ≡ p c
    → total p (put_tunnel shards name d) ≡ total p shards
unfolding put_tunnel find
total-replace p shards name c d w h e =
    let s = get_shard shards name in
    omega (
      arith,
      total-set p shards (shard_index name)
          (record { tunnels = insert name d s.tunnels; used = insert name true s.used })
          (rw w.size (shard_index-lt name)),
      count-replace p name c d s.tunnels h e,
    )
