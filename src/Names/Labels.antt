-- ===== src/Names/Labels.antt =====
-- Which names the server accepts, and that the names it makes up are such.
use drip_ex.Base.{
  ◌==◌, if◌then◌else◌, length, get_or, all, All, Bytes, ℕ, zero, suc, ◌+◌, ◌≤◌, ◌<◌, ◌≡◌, refl, ap,
  ◌↔◌, Bool, true, [], ◌∷◌, arith,
}
use drip_ex.Names.{
  is_alnum, is_inner, matches_tail, validate_subdomain, subdomain_chars, draw_chars,
  generate_subdomain, IsBelow,
}

unfoldable pub last_of : Bytes → ℕ
last_of [] = 0
last_of (c ∷ []) = c
last_of (c ∷ d ∷ s) = last_of (d ∷ s)

-- A DNS label of 3 to 63 bytes in lower case: letters, digits and inner hyphens.
pub record IsLabel (s : Bytes) : Type 0 where
  pub long : 3 ≤ length s
  pub short : length s ≤ 63
  pub inner : All (λ c. is_inner c ≡ true) s
  pub first : is_alnum (get_or s 0 0) ≡ true
  pub last : is_alnum (last_of s) ≡ true

matches_tail_sound :
    (n : ℕ) (s : Bytes)
    → matches_tail n s ≡ true
    → All (λ c. is_inner c ≡ true) s × (length s ≤ n + 1) × (is_alnum (last_of s) ≡ true)
unfolding matches_tail last_of
matches_tail_sound n [] h = cc
matches_tail_sound n (c ∷ []) h = ground arith
matches_tail_sound zero (c ∷ d ∷ s) h = cc
matches_tail_sound (suc n) (c ∷ d ∷ s) h = ground (arith, matches_tail_sound n (d ∷ s))

matches_tail_complete :
    (n : ℕ) (s : Bytes)
    → All (λ c. is_inner c ≡ true) s
    → length s ≤ n + 1
    → is_alnum (last_of s) ≡ true
    → matches_tail n s ≡ true
unfolding matches_tail last_of
matches_tail_complete n [] a l e = e
matches_tail_complete n (c ∷ []) a l e = e
matches_tail_complete zero (c ∷ d ∷ s) a l e = absurd (omega arith)
matches_tail_complete (suc n) (c ∷ d ∷ s) a l e =
    ground (arith, matches_tail_complete n (d ∷ s) a.1 (omega arith) e)

validate_sound : (s : Bytes) → validate_subdomain s ≡ true → IsLabel s
unfolding validate_subdomain last_of
validate_sound [] h = cc
validate_sound (c ∷ []) h = cc
validate_sound (c ∷ d ∷ s) h = ground (arith, matches_tail_sound 61 (d ∷ s))

validate_complete : (s : Bytes) → IsLabel s → validate_subdomain s ≡ true
unfolding validate_subdomain last_of
validate_complete [] l = absurd (omega (arith, l.long))
validate_complete (c ∷ []) l = absurd (omega (arith, l.long))
validate_complete (c ∷ d ∷ s) l =
    ground (arith, matches_tail_complete 61 (d ∷ s) l.inner.1 (omega (arith, l.short)) l.last)

-- The length check and the regular expression accept exactly the DNS labels of 3 to 63 bytes in
-- lower case.
pub validate_subdomain_iff : (s : Bytes) → (validate_subdomain s ≡ true) ↔ IsLabel s
validate_subdomain_iff s = (validate_sound s, validate_complete s)

all_chars : all is_alnum subdomain_chars ≡ true
all_chars = refl

get_or-all :
    (p : ℕ → Bool) (xs : Bytes) (i d : ℕ)
    → all p xs ≡ true
    → i < length xs
    → p (get_or xs i d) ≡ true
get_or-all p [] i d h l = elim l [ ]
get_or-all p (x ∷ xs) zero d h l = ground arith
get_or-all p (x ∷ xs) (suc i) d h l = get_or-all p xs i d (ground arith) (omega arith)

module _ (rand : ℕ → ℕ) (below : IsBelow 36 rand) where
  char-is_alnum : (i : ℕ) → is_alnum (get_or subdomain_chars (rand i) 0) ≡ true
  char-is_alnum i = get_or-all is_alnum subdomain_chars (rand i) 0 all_chars (below i)

  draw-inner : (i n : ℕ) → All (λ c. is_inner c ≡ true) (draw_chars rand i n)
  unfolding draw_chars
  draw-inner i zero = tt
  draw-inner i (suc n) = (rw (char-is_alnum i) refl, draw-inner (suc i) n)

  draw-last : (i n : ℕ) → is_alnum (last_of (draw_chars rand i (suc n))) ≡ true
  unfolding draw_chars last_of
  draw-last i zero = char-is_alnum i
  draw-last i (suc n) = draw-last (suc i) n

length-draw_chars : (rand : ℕ → ℕ) (i n : ℕ) → length (draw_chars rand i n) ≡ n
unfolding draw_chars
length-draw_chars rand i zero = refl
length-draw_chars rand i (suc n) = ap suc (length-draw_chars rand (suc i) n)

draw-IsLabel :
    (rand : ℕ → ℕ) (n : ℕ) → IsBelow 36 rand → 3 ≤ n → n ≤ 63 → IsLabel (draw_chars rand 0 n)
unfolding draw_chars
draw-IsLabel rand zero below lo hi = absurd (omega arith)
draw-IsLabel rand (suc n) below lo hi = record {
  long = omega (arith, length-draw_chars rand 0 (suc n));
  short = omega (arith, length-draw_chars rand 0 (suc n));
  inner = draw-inner rand below 0 (suc n);
  first = char-is_alnum rand below 0;
  last = draw-last rand below 0 n;
}

-- A generated name of 3 to 63 bytes is one that the server accepts, if the random numbers are
-- below 36.
pub validate-generate_subdomain :
    (n : ℕ) (rand : ℕ → ℕ)
    → IsBelow 36 rand
    → 3 ≤ n
    → n ≤ 63
    → validate_subdomain (generate_subdomain n rand) ≡ true
unfolding generate_subdomain
validate-generate_subdomain n rand below lo hi =
    let same : (if n == 0 then 6 else n) ≡ n = ground arith in
    rw same (validate_complete _ (draw-IsLabel rand n below lo hi))
