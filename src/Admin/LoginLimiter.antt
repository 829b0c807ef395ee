-- ===== src/Admin/LoginLimiter.antt =====
-- The throttle on password guessing of internal/server/admin/session.go.
use drip_ex.Base.{
  ltb, leb, if◌then◌else◌, length, All, Bytes, str_eq_refl, is_empty, Map, lookup, insert, delete,
  lookup-insert, lookup-delete, ℕ, suc, ◌+◌, ◌-◌, ◌≤◌, ◌≡◌, refl, subst, ◌∙◌, Bool, true, false,
  Option, none, some, List, [], ◌∷◌, arith,
}

pub record AttemptRecord : Type 0 where
  pub count : ℕ
  pub first : ℕ

pub record LoginLimiter : Type 0 where
  pub attempts : Map AttemptRecord
  pub max : ℕ
  pub window : ℕ

unfoldable pub new_login_limiter : ℕ → ℕ → LoginLimiter
new_login_limiter max window = record { attempts = []; max = max; window = window }

-- The record of a key whose window has not lapsed.
abbrev pub open_record : ℕ → ℕ → Option AttemptRecord → Option AttemptRecord
open_record now window none = none
open_record now window (some r) = if ltb window (now - r.first) then none else some r

abbrev pub is_below : ℕ → Option AttemptRecord → Bool
is_below max none = true
is_below max (some r) = ltb r.count max

unfoldable pub allow : ℕ → Bytes → LoginLimiter → Bool
allow now key l =
    if is_empty key then true else is_below l.max (open_record now l.window (lookup key l.attempts))

abbrev pub counted_attempt : ℕ → Option AttemptRecord → AttemptRecord
counted_attempt now none = record { count = 1; first = now }
counted_attempt now (some r) = record r { count = r.count + 1 }

unfoldable pub fail : ℕ → Bytes → LoginLimiter → LoginLimiter
fail now key l = if is_empty key then l else record l {
  attempts =
      insert key (counted_attempt now (open_record now l.window (lookup key l.attempts)))
        l.attempts;
}

unfoldable pub succeed : Bytes → LoginLimiter → LoginLimiter
succeed key l = if is_empty key then l else record l { attempts = delete key l.attempts }

unfoldable pub unlapsed : ℕ → ℕ → Map AttemptRecord → Map AttemptRecord
unlapsed now window [] = []
unlapsed now window ((key, r) ∷ attempts) =
    let rest = unlapsed now window attempts in
    if ltb window (now - r.first) then rest else (key, r) ∷ rest

unfoldable pub purge : ℕ → LoginLimiter → LoginLimiter
unfolding unlapsed
purge now l = record l { attempts = unlapsed now l.window l.attempts }

-- Failures of a key, one after the other, at these times.
unfoldable pub fail_all : List ℕ → Bytes → LoginLimiter → LoginLimiter
unfolding fail
fail_all [] key l = l
fail_all (now ∷ later) key l = fail_all later key (fail now key l)

module _ (key : Bytes) (some_key : is_empty key ≡ false) (start : ℕ) where
  -- The window of the key is open since `start`, with so many failures.
  abbrev IsOpen : ℕ → LoginLimiter → Type 0
  IsOpen n l = lookup key l.attempts ≡ some (record { count = n; first = start })

  fail-IsOpen :
      (now n : ℕ) (l : LoginLimiter)
      → now ≤ start + l.window
      → IsOpen n l
      → IsOpen (n + 1) (fail now key l)
  unfolding fail
  fail-IsOpen now n l early h =
      let inside : ltb l.window (now - start) ≡ false = ground arith in
      rw (some_key, h, inside) (lookup-insert key key _ l.attempts ∙ rw (str_eq_refl key) refl)

  fail-window :
      (now : ℕ) (l : LoginLimiter)
      → ((fail now key l).window ≡ l.window) × ((fail now key l).max ≡ l.max)
  unfolding fail
  fail-window now l = (ground arith, ground arith)

  fail_all-IsOpen :
      (times : List ℕ) (n : ℕ) (l : LoginLimiter)
      → All (λ now. now ≤ start + l.window) times
      → IsOpen n l
      → IsOpen (n + length times) (fail_all times key l)
        × ((fail_all times key l).window ≡ l.window)
        × ((fail_all times key l).max ≡ l.max)
  unfolding fail_all
  fail_all-IsOpen [] n l early h = (subst (λ k. IsOpen k l) (omega arith) h, refl, refl)
  fail_all-IsOpen (now ∷ later) n l early h =
      let (window, max) = fail-window now l in
      let opened = fail-IsOpen now n l early.0 h in
      let (rest, rest_window, rest_max) =
        fail_all-IsOpen later (n + 1) (fail now key l) (rw window early.1) opened in
      let total : n + 1 + length later ≡ n + suc (length later) = omega arith in
      (
        subst (λ k. IsOpen k (fail_all later key (fail now key l))) total rest,
        rest_window ∙ window,
        rest_max ∙ max,
      )

  -- A key that fails at `start`, when no window of it is open, and then at further moments of the
  -- window that this opens, may try again within the window if and only if it has failed fewer times
  -- than the maximum. When the window has lapsed, and after a success, it may try again.
  pub allow-fail_all :
      (later : List ℕ) (now : ℕ) (l : LoginLimiter)
      → open_record start l.window (lookup key l.attempts) ≡ none
      → All (λ t. t ≤ start + l.window) later
      → (allow now key (fail_all (start ∷ later) key l)
          ≡ (if leb now (start + l.window) then ltb (1 + length later) l.max else true))
        × (allow now key (succeed key (fail_all (start ∷ later) key l)) ≡ true)
  unfolding fail_all allow succeed fail
  allow-fail_all later now l fresh early =
      let first : IsOpen 1 (fail start key l) =
        rw (some_key, fresh) (lookup-insert key key _ l.attempts ∙ rw (str_eq_refl key) refl) in
      let (window, max) = fail-window start l in
      let (opened, same_window, same_max) =
        fail_all-IsOpen later 1 (fail start key l) (rw window early) first in
      let end = fail_all later key (fail start key l) in
      (
        rw (some_key, opened, same_window ∙ window, same_max ∙ max) (ground arith),
        rw (some_key, lookup-delete key key end.attempts, str_eq_refl key) refl,
      )
