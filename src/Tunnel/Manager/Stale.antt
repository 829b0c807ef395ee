-- ===== src/Tunnel/Manager/Stale.antt =====
-- Which tunnels `CleanupStale` removes.
use drip_ex.Base.{
  leb, ◌==◌, if◌then◌else◌, Option-cases, length, any, Bytes, str_eq, str_eq_iff, Map, lookup,
  Distinct, ℕ, zero, suc, ◌+◌, ◌≡◌, refl, inl, inr, Bool, false, not, Option, none, some, List, [],
  ◌∷◌, arith, ℕ_discrete,
}
use drip_ex.Tunnel.Shards.{Connection, Shard, shard_index, shard_at, find}
use drip_ex.Tunnel.Shards.Counting.{IsSharded, shard_index-lt, find-remove}
use drip_ex.Tunnel.Manager.{
  Manager, get, is_alive, unregister, unregister_all, settle_ip, settle_account, stale_names,
  clean_shards, cleanup_stale,
}
use drip_ex.Tunnel.Manager.Books.{IsValid, HasIpBooks}
use drip_ex.Tunnel.Manager.Validity.{
  unregister_absent, unregister_present, unregister-IsValid, unregister_all-IsValid,
}

-- A tunnel that has been active within the timeout stays; any other is gone.
abbrev pub if_alive : ℕ → ℕ → Option Connection → Option Connection
if_alive now timeout none = none
if_alive now timeout (some c) = if is_alive now timeout c then some c else none

abbrev is_stale_tunnel : ℕ → ℕ → Option Connection → Bool
is_stale_tunnel now timeout none = false
is_stale_tunnel now timeout (some c) = not (is_alive now timeout c)

abbrev holds : Bytes → List Bytes → Bool
holds j names = any (λ n. str_eq n j) names

stale_absent :
    (now timeout : ℕ) (j : Bytes) (m : Map Connection)
    → lookup j m ≡ none
    → holds j (stale_names now timeout m) ≡ false
unfolding stale_names lookup
stale_absent now timeout j [] e = refl
stale_absent now timeout j ((name, c) ∷ m) e =
    ground (arith, stale_absent now timeout j m, str_eq_iff name j)

holds-stale_names :
    (now timeout : ℕ) (j : Bytes) (m : Map Connection)
    → Distinct m
    → holds j (stale_names now timeout m) ≡ is_stale_tunnel now timeout (lookup j m)
unfolding stale_names lookup
holds-stale_names now timeout j [] d = refl
holds-stale_names now timeout j ((name, c) ∷ m) d =
    ground
      (arith, holds-stale_names now timeout j m, stale_absent now timeout j m, str_eq_iff name j)

shards-unregister :
    (name j : Bytes) (m : Manager)
    → IsSharded m.shards
    → find (unregister name m).shards j ≡ (if str_eq name j then none else find m.shards j)
unfolding settle_ip settle_account
shards-unregister name j m w = elim (Option-cases (find m.shards name)) [
  | inl e ↦ rw (unregister_absent name m e) (ground (arith, str_eq_iff name j))
  | inr (c, e) ↦ rw (unregister_present name m c e) (ground (arith, find-remove m.shards name j w))
]

-- From a manager in order, a name that is unregistered finds nothing, and every other name finds
-- what it found before.
pub get-unregister :
    (name j : Bytes) (m : Manager)
    → IsValid m
    → get (unregister name m) j ≡ (if str_eq name j then none else get m j)
unfolding get
get-unregister name j m v = shards-unregister name j m v.sharded

find-unregister_all :
    (names : List Bytes) (j : Bytes) (m : Manager)
    → IsValid m
    → HasIpBooks m
    → find (unregister_all names m).shards j ≡ (if holds j names then none else find m.shards j)
unfolding unregister_all
find-unregister_all [] j m v b = refl
find-unregister_all (name ∷ names) j m v b =
    let (v', b') = unregister-IsValid name m v b in
    ground (
      arith,
      find-unregister_all names j (unregister name m) v' b',
      shards-unregister name j m v.sharded,
    )

-- A name stands in the shard of its hash and in no other.
lookup_at :
    (shards : List Shard) (i : ℕ) (j : Bytes)
    → IsSharded shards
    → lookup j (shard_at shards i).tunnels ≡ (if i == shard_index j then find shards j else none)
unfolding find
lookup_at shards i j w = elim (Option-cases (lookup j (shard_at shards i).tunnels)) [
  | inr (c, e) ↦ let home = ((w.at i).placed j c e).0 in rw home (ground arith)
  | inl e ↦ elim (ℕ_discrete (shard_index j) i) [
    | yes home ↦ rw home (ground arith)
    | no away ↦ ground arith
  ]
]

module _ (now timeout : ℕ) where
  -- One shard is cleaned.
  find-clean_shard :
      (i : ℕ) (j : Bytes) (m : Manager)
      → IsValid m
      → HasIpBooks m
      → find (unregister_all (stale_names now timeout (shard_at m.shards i).tunnels) m).shards j
        ≡ (if i == shard_index j then if_alive now timeout (find m.shards j) else find m.shards j)
  find-clean_shard i j m v b = ground (
    arith,
    find-unregister_all (stale_names now timeout (shard_at m.shards i).tunnels) j m v b,
    holds-stale_names now timeout j (shard_at m.shards i).tunnels (v.sharded.at i).distinct,
    lookup_at m.shards i j v.sharded,
  )

  find-clean_shards :
      (n i : ℕ) (j : Bytes) (m : Manager) (cleaned : ℕ)
      → IsValid m
      → HasIpBooks m
      → n + i ≡ 32
      → find (clean_shards now timeout n i (m, cleaned)).0.shards j ≡ (
          if leb i (shard_index j) then if_alive now timeout (find m.shards j) else find m.shards j)
  unfolding clean_shards
  find-clean_shards zero i j m cleaned v b e = ground (arith, shard_index-lt j)
  find-clean_shards (suc n) i j m cleaned v b e =
      let stale = stale_names now timeout (shard_at m.shards i).tunnels in
      let (v', b') = unregister_all-IsValid stale m v b in
      ground (
        arith,
        find-clean_shards n (i + 1) j (unregister_all stale m) (cleaned + length stale) v' b'
            (omega arith),
        find-clean_shard i j m v b,
      )

  -- From a manager in order, the cleanup keeps exactly the tunnels that were active within the
  -- timeout.
  pub get-cleanup_stale :
      (j : Bytes) (m : Manager)
      → IsValid m
      → HasIpBooks m
      → get (cleanup_stale now timeout m).0 j ≡ if_alive now timeout (get m j)
  unfolding get cleanup_stale
  get-cleanup_stale j m v b = ground (arith, find-clean_shards 32 0 j m 0 v b refl)
