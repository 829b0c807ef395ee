-- ===== src/Base/Pairs.antt =====
-- Lists in which no row clashes with a later one: what a unique index of the database keeps.
use mathlib.Core.Path.{◌≡◌, refl, sym, ap, subst}
use mathlib.Core.Bool.{Bool, true, false, ◌||◌}
use mathlib.Core.Option.{Option, none, some}
use mathlib.Core.Option
use mathlib.Core.Logic.{inl, inr}
use mathlib.Core.List.{List, [], ◌∷◌, map}
use native.Mathlib.Omega.{arith}
use drip_ex.Base.Tests.{if◌then◌else◌, Bool-cases}
use drip_ex.Base.Lists.{any, find?, select, All}

module _ {ℓ} {A : Type ℓ} where
  abbrev pub NoClash : (A → A → Bool) → List A → Type 0
  NoClash clash [] = Unit
  NoClash clash (r ∷ rows) = (any (clash r) rows ≡ false) × NoClash clash rows

  any-select_clash :
      (p q : A → Bool) (rows : List A) → any q rows ≡ false → any q (select p rows) ≡ false
  any-select_clash p q [] h = refl
  any-select_clash p q (r ∷ rows) h = ground (arith, any-select_clash p q rows)

  pub select-NoClash :
      (clash : A → A → Bool) (p : A → Bool) (rows : List A)
      → NoClash clash rows
      → NoClash clash (select p rows)
  select-NoClash clash p [] u = tt
  select-NoClash clash p (r ∷ rows) u =
      ground (arith, select-NoClash clash p rows u.1, any-select_clash p (clash r) rows u.0)

  pub All-map {κ μ} :
      (P : A → Type κ) (Q : A → Type μ) (f : A → A) (rows : List A)
      → ((a : A) → P a → Q (f a))
      → All P rows
      → All Q (map f rows)
  All-map P Q f [] step h = tt
  All-map P Q f (r ∷ rows) step h = (step r h.0, All-map P Q f rows step h.1)

  pub All-weaken {κ μ} :
      (P : A → Type κ) (Q : A → Type μ) (rows : List A)
      → ((a : A) → P a → Q a)
      → All P rows
      → All Q rows
  All-weaken P Q [] step h = tt
  All-weaken P Q (r ∷ rows) step h = (step r h.0, All-weaken P Q rows step h.1)

  All-keep {κ μ} :
      (P : A → Type κ) (Q : A → Type μ) (p : A → Bool) (r : A) (rows : List A) (kept : Bool)
      → p r ≡ kept
      → (p r ≡ true → P r → Q r)
      → P r
      → All Q (select p rows)
      → All Q (if kept then r ∷ select p rows else select p rows)
  All-keep P Q p r rows true e step h hs = (step e h, hs)
  All-keep P Q p r rows false e step h hs = hs

  pub All-select {κ μ} :
      (P : A → Type κ) (Q : A → Type μ) (p : A → Bool) (rows : List A)
      → ((a : A) → p a ≡ true → P a → Q a)
      → All P rows
      → All Q (select p rows)
  All-select P Q p [] step h = tt
  All-select P Q p (r ∷ rows) step h =
      All-keep P Q p r rows (p r) refl (step r) h.0 (All-select P Q p rows step h.1)

  pub any-All : (q : A → Bool) (rows : List A) → any q rows ≡ false → All (λ a. q a ≡ false) rows
  any-All q [] h = tt
  any-All q (r ∷ rows) h = (ground arith, any-All q rows (ground arith))

  pub All-any : (q : A → Bool) (rows : List A) → All (λ a. q a ≡ false) rows → any q rows ≡ false
  All-any q [] h = refl
  All-any q (r ∷ rows) h = rw h.0 (All-any q rows h.1)

  pub All-both {κ μ} :
      (P : A → Type κ) (Q : A → Type μ) (rows : List A)
      → All P rows
      → All Q rows
      → All (λ a. P a × Q a) rows
  All-both P Q [] h k = tt
  All-both P Q (r ∷ rows) h k = ((h.0, k.0), All-both P Q rows h.1 k.1)

  pub All-units : (rows : List A) → All {ℓ, 0} (λ a. Unit) rows
  All-units [] = tt
  All-units (r ∷ rows) = (tt, All-units rows)

  pub any-map :
      (p : A → Bool) (f : A → A) (rows : List A)
      → ((a : A) → p (f a) ≡ p a)
      → any p (map f rows) ≡ any p rows
  any-map p f [] same = refl
  any-map p f (r ∷ rows) same = rw (same r, any-map p f rows same) refl

  any_keep :
      (p q : A → Bool) (r : A) (rows : List A) (kept : Bool)
      → q r ≡ kept
      → (p r ≡ true → q r ≡ true)
      → any p (select q rows) ≡ any p rows
      → any p (if kept then r ∷ select q rows else select q rows) ≡ (p r || any p rows)
  any_keep p q r rows true e step h = rw h refl
  any_keep p q r rows false e step h = ground arith

  -- Rows that are left out are not missed where the test keeps those that are looked for.
  pub any-select :
      (p q : A → Bool) (rows : List A)
      → ((a : A) → p a ≡ true → q a ≡ true)
      → any p (select q rows) ≡ any p rows
  any-select p q [] keep = refl
  any-select p q (r ∷ rows) keep =
      any_keep p q r rows (q r) refl (keep r) (any-select p q rows keep)

  any-map_clash :
      (P : A → Type 0) (clash : A → A → Bool) (f : A → A) (r : A) (rows : List A)
      → ((b : A) → P b → clash r b ≡ false → clash (f r) (f b) ≡ false)
      → All P rows
      → any (clash r) rows ≡ false
      → any (clash (f r)) (map f rows) ≡ false
  any-map_clash P clash f r rows step ps free = All-any (clash (f r)) (map f rows) (
      All-map _ _ f rows (λ b h. step b h.0 h.1)
        (All-both P _ rows ps (any-All (clash r) rows free)))

  -- A change of the rows that makes no two of them clash.
  pub map-NoClash :
      (P : A → Type 0) (clash : A → A → Bool) (f : A → A) (rows : List A)
      → ((a b : A) → P a → P b → clash a b ≡ false → clash (f a) (f b) ≡ false)
      → All P rows
      → NoClash clash rows
      → NoClash clash (map f rows)
  map-NoClash P clash f [] step ps u = tt
  map-NoClash P clash f (r ∷ rows) step ps u = (
    any-map_clash P clash f r rows (λ b. step r b ps.0) ps.1 u.0,
    map-NoClash P clash f rows step ps.1 u.1,
  )

  pairs_tail :
      (relates : A → A → Bool) (r : A) (rows xs : List A)
      → any (λ a. any (relates a) (r ∷ rows)) xs ≡ false
      → any (λ a. any (relates a) rows) xs ≡ false
  pairs_tail relates r rows [] h = refl
  pairs_tail relates r rows (x ∷ xs) h = ground (arith, pairs_tail relates r rows xs)

  pairs_head :
      (relates : A → A → Bool) (r : A) (rows xs : List A)
      → any (λ a. any (relates a) (r ∷ rows)) xs ≡ false
      → All (λ b. relates b r ≡ false) xs
  pairs_head relates r rows [] h = tt
  pairs_head relates r rows (x ∷ xs) h = (ground arith, pairs_head relates r rows xs (ground arith))

  -- The same where the change is safe for any two rows that are not related.
  pub map-NoClash_pairs :
      (relates clash : A → A → Bool) (f : A → A) (rows : List A)
      → ((a b : A)
          → relates a b ≡ false
          → relates b a ≡ false
          → clash a b ≡ false
          → clash (f a) (f b) ≡ false)
      → any (λ a. any (relates a) rows) rows ≡ false
      → NoClash clash rows
      → NoClash clash (map f rows)
  map-NoClash_pairs relates clash f [] step h u = tt
  map-NoClash_pairs relates clash f (r ∷ rows) step h u =
      let after : any (λ a. any (relates a) (r ∷ rows)) rows ≡ false = ground arith in
      let front : any (relates r) rows ≡ false = ground arith in
      (
        any-map_clash _ clash f r rows (λ b k. step r b k.0 k.1)
            (All-both _ _ rows (any-All (relates r) rows front)
              (pairs_head relates r rows rows after))
            u.0,
        map-NoClash_pairs relates clash f rows step (pairs_tail relates r rows rows after) u.1,
      )

module _ {A : Type 0} where
  -- What is found has what all rows have, and passes the test.
  pub find-All :
      (P : A → Type 0) (p : A → Bool) (rows : List A) (a : A)
      → All P rows
      → find? p rows ≡ some a
      → P a × (p a ≡ true)
  find-All P p [] a h e = cc
  find-All P p (b ∷ rows) a h e = elim (Bool-cases (p b)) [
    | inl here ↦ let same : b ≡ a = ground arith in subst (λ c. P c × (p c ≡ true)) same (h.0, here)
    | inr not_here ↦ find-All P p rows a h.1 (ground arith)
  ]

  -- Rows that are left out are not missed where those that are looked for are kept.
  pub find-select_kept :
      (p q : A → Bool) (rows : List A)
      → ((a : A) → p a ≡ true → q a ≡ true)
      → find? p (select q rows) ≡ find? p rows
  find-select_kept p q [] keep = refl
  find-select_kept p q (a ∷ rows) keep = ground (arith, keep a, find-select_kept p q rows keep)

  pub find-select_gone :
      (p q : A → Bool) (rows : List A)
      → ((a : A) → p a ≡ true → q a ≡ false)
      → find? p (select q rows) ≡ none
  find-select_gone p q [] gone = refl
  find-select_gone p q (a ∷ rows) gone = ground (arith, gone a, find-select_gone p q rows gone)

  -- A change of the rows that the test does not see.
  pub find-map :
      (f : A → A) (p : A → Bool) (rows : List A)
      → ((a : A) → p (f a) ≡ p a)
      → find? p (map f rows) ≡ Option.map f (find? p rows)
  find-map f p [] same = refl
  find-map f p (a ∷ rows) same = ground (arith, same a, find-map f p rows same)

  -- With distinct keys, a row among others is the one that is found under its key.
  pub find-NoClash :
      (clash : A → A → Bool) (p q : A → Bool) (rows : List A) (a : A)
      → NoClash clash rows
      → ((b : A) → clash b a ≡ false → p a ≡ true → p b ≡ false)
      → p a ≡ true
      → find? q rows ≡ some a
      → find? p rows ≡ some a
  find-NoClash clash p q [] a u left here e = cc
  find-NoClash clash p q (b ∷ rows) a u left here e = elim (Bool-cases (q b)) [
    | inl first ↦
        let same : b ≡ a = ground arith in
        let found : p b ≡ true = subst (λ c. p c ≡ true) (sym same) here in rw found (ap some same)
    | inr later ↦
        let rest : find? q rows ≡ some a = ground arith in
        let apart : clash b a ≡ false =
          (find-All (λ c. clash b c ≡ false) q rows a (any-All (clash b) rows u.0) rest).0 in
        rw (left b apart here) (find-NoClash clash p q rows a u.1 left here rest)
  ]
