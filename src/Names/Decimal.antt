-- ===== src/Names/Decimal.antt =====
-- Decimal numbers as the program prints and reads them: `%d` of package fmt, `strconv.Atoi` and
-- `strconv.ParseInt(s, 10, 64)`.
use drip_ex.Base.{
  ltb, ◌==◌, if◌then◌else◌, Bool-cases, Bytes, is_digit, ℤ, pos, negsuc, ℕ, zero, suc, ◌+◌, ◌-◌,
  ◌*◌, ◌/◌, ◌%◌, ◌^◌, ◌≤◌, ◌<◌, ◌≡◌, refl, subst, ◌∙◌, inl, inr, Bool, true, false, Option, none,
  some, [], ◌∷◌, arith,
}

-- The digits of `n` in front of `out`; `fuel` above `n` is enough.
unfoldable pub digits_from : ℕ → ℕ → Bytes → Bytes
digits_from zero n out = out
digits_from (suc fuel) n out = elim (ltb n 10) [
  | true ↦ (b'0' + n) ∷ out
  | false ↦ digits_from fuel (n / 10) ((b'0' + n % 10) ∷ out)
]

unfoldable pub show : ℕ → Bytes
unfolding digits_from
show n = digits_from (suc n) n []

unfoldable pub read_digits : ℕ → Bytes → Option ℕ
read_digits acc [] = some acc
read_digits acc (c ∷ s) =
    let rest = read_digits (acc * 10 + (c - b'0')) s in if is_digit c then rest else none

-- Digits behind a sign, in the range of int64.
abbrev pub signed : Bool → Option ℕ → Option ℤ
signed neg none = none
signed false (some n) = if ltb n (2 ^ 63) then some (pos n) else none
signed true (some zero) = some (pos 0)
signed true (some (suc n)) = if ltb n (2 ^ 63) then some (negsuc n) else none

abbrev pub read_number : Bytes → Option ℕ
read_number [] = none
read_number (c ∷ s) = read_digits 0 (c ∷ s)

-- `strconv.Atoi`, the same as `strconv.ParseInt(s, 10, 64)`; `none` is an error.
unfoldable pub atoi : Bytes → Option ℤ
unfolding read_digits
atoi [] = none
atoi (c ∷ s) =
    if c == b'-'
    then signed true (read_number s)
    else if c == b'+'
    then signed false (read_number s)
    else signed false (read_number (c ∷ s))

read_digits-digits_from :
    (fuel n : ℕ) (out : Bytes)
    → n < fuel
    → read_digits 0 (digits_from fuel n out) ≡ read_digits n out
unfolding digits_from read_digits
read_digits-digits_from zero n out h = elim h [ ]
read_digits-digits_from (suc fuel) n out h = elim (Bool-cases (ltb n 10)) [
  | inl e ↦
      let same : 0 * 10 + (48 + n - 48) ≡ n = omega arith in
      let digit : is_digit (48 + n) ≡ true = ground arith in
      rw (e, digits_from) (rw (digit, same) refl)
  | inr e ↦
      let bound : n / 10 < fuel = ground arith in
      let same : n / 10 * 10 + (48 + n % 10 - 48) ≡ n = omega arith in
      let digit : is_digit (48 + n % 10) ≡ true = ground arith in
      rw (e, digits_from)
        (read_digits-digits_from fuel (n / 10) ((48 + n % 10) ∷ out) bound ∙ rw (digit, same) refl)
]

-- What is printed begins with a digit.
digits_from-head :
    (fuel n : ℕ) (out : Bytes)
    → n < fuel
    → (c : ℕ) × (s : Bytes) × (digits_from fuel n out ≡ c ∷ s) × (48 ≤ c)
unfolding digits_from
digits_from-head zero n out h = elim h [ ]
digits_from-head (suc fuel) n out h = elim (Bool-cases (ltb n 10)) [
  | inl e ↦ (48 + n, out, rw (e, digits_from) refl, omega arith)
  | inr e ↦
      let (c, s, p, q) = digits_from-head fuel (n / 10) ((48 + n % 10) ∷ out) (ground arith) in
      (c, s, rw (e, digits_from) p, q)
]

-- Reading a printed number gives the number back.
pub atoi-show : (n : ℕ) → n < 2 ^ 63 → atoi (show n) ≡ some (pos n)
unfolding show atoi read_digits
atoi-show n h =
    let (c, s, p, q) = digits_from-head (suc n) n [] (omega arith) in
    let back : read_digits 0 (c ∷ s) ≡ some n =
      subst (λ t. read_digits 0 t ≡ some n) p
        (read_digits-digits_from (suc n) n [] (omega arith)) in
    rw p (ground (arith, back))

pub show-cons : (n : ℕ) → (c : ℕ) × (s : Bytes) × (show n ≡ c ∷ s)
unfolding show
show-cons n = let (c, s, p, q) = digits_from-head (suc n) n [] (omega arith) in (c, s, p)
