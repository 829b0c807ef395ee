-- ===== src/Base/Maps.antt =====
-- Go's `map[string]V` as an association list with distinct keys, and maps of counters.
use Prim.Native.Nat.{ℕ, ◌+◌, ◌-◌}
use mathlib.Core.Path.{◌≡◌, refl, sym, ap}
use mathlib.Core.Bool.{Bool, true, false}
use mathlib.Core.Option.{Option, none, some}
use mathlib.Core.List.{List, [], ◌∷◌}
use native.Mathlib.Omega.{arith}
use drip_ex.Base.Tests.{if◌then◌else◌, ltb, ◌==◌, or_default}
use drip_ex.Base.Text.{Bytes, str_eq, str_eq_iff, str_eq_refl}

abbrev pub Map : Type 0 → Type 0
Map V = List (Bytes × V)

module _ {V : Type 0} where
  unfoldable pub lookup : Bytes → Map V → Option V
  lookup k [] = none
  lookup k ((j, v) ∷ m) = if str_eq j k then some v else lookup k m

  unfoldable pub insert : Bytes → V → Map V → Map V
  insert k v [] = (k, v) ∷ []
  insert k v ((j, w) ∷ m) = if str_eq j k then (k, v) ∷ m else (j, w) ∷ insert k v m

  unfoldable pub delete : Bytes → Map V → Map V
  delete k [] = []
  delete k ((j, w) ∷ m) = if str_eq j k then delete k m else (j, w) ∷ delete k m

  pub lookup-insert :
      (k j : Bytes) (v : V) (m : Map V)
      → lookup j (insert k v m) ≡ (if str_eq k j then some v else lookup j m)
  unfolding lookup insert
  lookup-insert k j v [] = refl
  lookup-insert k j v ((i, w) ∷ m) =
      ground (arith, str_eq_iff k j, str_eq_iff i k, str_eq_iff i j, lookup-insert k j v m)

  pub lookup-delete :
      (k j : Bytes) (m : Map V) → lookup j (delete k m) ≡ (if str_eq k j then none else lookup j m)
  unfolding lookup delete
  lookup-delete k j [] = ground arith
  lookup-delete k j ((i, w) ∷ m) =
      ground (arith, str_eq_iff k j, str_eq_iff i k, str_eq_iff i j, lookup-delete k j m)

  -- No key stands twice, as in every Go map.
  abbrev pub Distinct : Map V → Type 0
  Distinct [] = Unit
  Distinct ((k, v) ∷ m) = (lookup k m ≡ none) × Distinct m

  pub insert-Distinct : (k : Bytes) (v : V) (m : Map V) → Distinct m → Distinct (insert k v m)
  unfolding insert lookup
  insert-Distinct k v [] d = (refl, tt)
  insert-Distinct k v ((j, w) ∷ m) d =
      ground (arith, insert-Distinct k v m, lookup-insert k j v m, str_eq_iff j k, str_eq_iff k j)

  pub delete-Distinct : (k : Bytes) (m : Map V) → Distinct m → Distinct (delete k m)
  unfolding delete lookup
  delete-Distinct k [] d = tt
  delete-Distinct k ((j, w) ∷ m) d = ground (arith, delete-Distinct k m, lookup-delete k j m)

  pub delete_absent : (k : Bytes) (m : Map V) → lookup k m ≡ none → delete k m ≡ m
  unfolding delete lookup
  delete_absent k [] h = refl
  delete_absent k ((j, w) ∷ m) h = ground (arith, delete_absent k m)

  -- How many entries pass a test.
  unfoldable pub count : (V → Bool) → Map V → ℕ
  count p [] = 0
  count p ((k, v) ∷ m) = (if p v then 1 else 0) + count p m

  pub count-insert :
      (p : V → Bool) (k : Bytes) (v : V) (m : Map V)
      → lookup k m ≡ none
      → count p (insert k v m) ≡ (if p v then 1 else 0) + count p m
  unfolding count insert lookup
  count-insert p k v [] h = refl
  count-insert p k v ((j, w) ∷ m) h = ground (arith, count-insert p k v m)

  pub count-replace :
      (p : V → Bool) (k : Bytes) (v w : V) (m : Map V)
      → lookup k m ≡ some v
      → p w ≡ p v
      → count p (insert k w m) ≡ count p m
  unfolding count insert lookup
  count-replace p k v w [] h e = cc
  count-replace p k v w ((j, u) ∷ m) h e =
      replace_step (str_eq j k) (λ h'. count-replace p k v w m h' e) h
    where
      replace_step :
          (here : Bool)
          → (lookup k m ≡ some v → count p (insert k w m) ≡ count p m)
          → (if here then some u else lookup k m) ≡ some v
          → count p (if here then (k, w) ∷ m else (j, u) ∷ insert k w m)
            ≡ (if p u then 1 else 0) + count p m
      replace_step true rest found = let same : u ≡ v = cc in rw (e, sym same) refl
      replace_step false rest found = ap (λ n. (if p u then 1 else 0) + n) (rest found)

  pub count-delete :
      (p : V → Bool) (k : Bytes) (v : V) (m : Map V)
      → Distinct m
      → lookup k m ≡ some v
      → (if p v then 1 else 0) + count p (delete k m) ≡ count p m
  unfolding count delete lookup
  count-delete p k v [] d h = cc
  count-delete p k v ((j, w) ∷ m) d h =
      ground (arith, count-delete p k v m, delete_absent k m, str_eq_iff j k)

-- `m[k]` where a missing key reads as 0.
abbrev pub tally : Bytes → Map ℕ → ℕ
tally k m = or_default 0 (lookup k m)

-- `m[k]++`.
unfoldable pub increment : Bytes → Map ℕ → Map ℕ
increment k m = insert k (tally k m + 1) m

-- `if m[k] > 0 { m[k]--; if m[k] == 0 { delete(m, k) } }`.
unfoldable pub decrement : Bytes → Map ℕ → Map ℕ
decrement k m =
    if ltb 0 (tally k m)
    then (if tally k m - 1 == 0 then delete k m else insert k (tally k m - 1) m)
    else m

pub tally-increment :
    (k j : Bytes) (m : Map ℕ)
    → tally j (increment k m) ≡ (if str_eq k j then tally k m + 1 else tally j m)
unfolding increment
tally-increment k j m = ground (arith, lookup-insert k j (tally k m + 1) m)

pub tally-decrement :
    (k j : Bytes) (m : Map ℕ)
    → tally j (decrement k m) ≡ (if str_eq k j then tally k m - 1 else tally j m)
unfolding decrement
tally-decrement k j m =
    ground (arith, lookup-insert k j (tally k m - 1) m, lookup-delete k j m, str_eq_iff k j)

pub decrement-increment :
    (k j : Bytes) (m : Map ℕ) → tally j (decrement k (increment k m)) ≡ tally j m
decrement-increment k j m = ground (
  arith,
  tally-decrement k j (increment k m),
  tally-increment k j m,
  tally-increment k k m,
  str_eq_refl k,
  str_eq_iff k j,
)
