-- ===== src/Units.antt =====
-- internal/shared/units/bandwidth.go, with the arithmetic of int64: a product wraps around 2^64.
use drip_ex.Base.{
  ltb, ◌==◌, if◌then◌else◌, is_some, or_default, Bytes, codes, is_empty, to_upper, trim_space,
  strip_prefix, Result, ℤ, ok, err, pos, negsuc, ℕ, zero, suc, ◌+◌, ◌-◌, ◌*◌, ◌/◌, ◌%◌, ◌^◌, ◌<◌,
  ◌≡◌, refl, ◌⊎◌, inl, inr, Bool, true, false, not, ◌&&◌, ◌||◌, Option, none, some, [], ◌∷◌, arith,
}
use mathlib.Core.List.{reverse}
use mathlib.Core.Option
use drip_ex.Names.Decimal.{atoi, signed, read_number}

pub data UnitError : Type 0 where
  invalid_value overflow : UnitError

-- The text before a suffix; `none` is `strings.HasSuffix` being false.
unfoldable pub strip_suffix : Bytes → Bytes → Option Bytes
unfolding strip_prefix
strip_suffix suffix s = Option.map reverse (strip_prefix (reverse suffix) (reverse s))

abbrev pub has_suffix : Bytes → Bytes → Bool
has_suffix suffix s = is_some (strip_suffix suffix s)

-- `strings.TrimSuffix`.
abbrev pub trim_suffix : Bytes → Bytes → Bytes
trim_suffix suffix s = or_default s (strip_suffix suffix s)

abbrev kilo : ℕ
kilo = 1024

-- The text without its unit, and the multiplier.
unfoldable pub split_unit : Bytes → Bytes × ℕ
unfolding strip_suffix
split_unit s =
    if has_suffix (codes "GB") s || has_suffix (codes "G") s
    then (trim_suffix (codes "G") (trim_suffix (codes "GB") s), kilo * kilo * kilo)
    else if has_suffix (codes "MB") s || has_suffix (codes "M") s
    then (trim_suffix (codes "M") (trim_suffix (codes "MB") s), kilo * kilo)
    else if has_suffix (codes "KB") s || has_suffix (codes "K") s
    then (trim_suffix (codes "K") (trim_suffix (codes "KB") s), kilo)
    else if has_suffix (codes "B") s
    then (trim_suffix (codes "B") s, 1)
    else (s, 1)

-- The int64 that a number wraps around to.
unfoldable pub int64 : ℕ → ℤ
int64 n = if ltb (n % 2 ^ 64) (2 ^ 63) then pos (n % 2 ^ 64) else negsuc (2 ^ 64 - 1 - n % 2 ^ 64)

-- `result/multiplier == val`, where the division drops the fraction.
unfoldable pub divides_back : ℤ → ℕ → ℕ → Bool
divides_back (pos r) multiplier val = r / multiplier == val
divides_back (negsuc r) multiplier val = (r + 1) / multiplier == 0 && val == 0

abbrev pub scaled : ℕ → Option ℤ → Result UnitError ℤ
scaled multiplier none = err invalid_value
scaled multiplier (some (negsuc n)) = err invalid_value
scaled multiplier (some (pos val)) =
    if ltb 0 val && not (divides_back (int64 (val * multiplier)) multiplier val)
    then err overflow
    else ok (int64 (val * multiplier))

abbrev pub with_unit : Bytes × ℕ → Result UnitError ℤ
with_unit (s, multiplier) = scaled multiplier (atoi s)

unfoldable pub parse_bandwidth : Bytes → Result UnitError ℤ
parse_bandwidth s =
    if is_empty s
    then ok (pos 0)
    else if is_empty (trim_space (to_upper s))
    then ok (pos 0)
    else with_unit (split_unit (trim_space (to_upper s)))

abbrev IsUnit : ℕ → Type 0
IsUnit m = (m ≡ 1) ⊎ (m ≡ 1024) ⊎ (m ≡ 1048576) ⊎ (m ≡ 1073741824)

pick-IsUnit :
    (giga mega kilos bytes : Bool) (a b c d e : Bytes)
    → let out : Bytes × ℕ =
        if giga
        then (a, kilo * kilo * kilo)
        else if mega
        then (b, kilo * kilo)
        else if kilos
        then (c, kilo)
        else if bytes
        then (d, 1)
        else (e, 1) in
      IsUnit out.1
pick-IsUnit true mega kilos bytes a b c d e = inr (inr (inr refl))
pick-IsUnit false true kilos bytes a b c d e = inr (inr (inl refl))
pick-IsUnit false false true bytes a b c d e = inr (inl refl)
pick-IsUnit false false false true a b c d e = inl refl
pick-IsUnit false false false false a b c d e = inl refl

split_unit-IsUnit : (s : Bytes) → IsUnit (split_unit s).1
unfolding split_unit
split_unit-IsUnit s =
    pick-IsUnit (has_suffix (codes "GB") s || has_suffix (codes "G") s)
      (has_suffix (codes "MB") s || has_suffix (codes "M") s)
      (has_suffix (codes "KB") s || has_suffix (codes "K") s) (has_suffix (codes "B") s)
      (trim_suffix (codes "G") (trim_suffix (codes "GB") s))
      (trim_suffix (codes "M") (trim_suffix (codes "MB") s))
      (trim_suffix (codes "K") (trim_suffix (codes "KB") s)) (trim_suffix (codes "B") s) s

-- The check after the multiplication finds every product beyond int64, and no other.
exact :
    (val multiplier : ℕ)
    → IsUnit multiplier
    → val < 2 ^ 63
    → scaled multiplier (some (pos val))
      ≡ (if ltb (val * multiplier) (2 ^ 63) then ok (pos (val * multiplier)) else err overflow)
unfolding int64 divides_back
exact val multiplier (inl e) small = rw e (ground arith)
exact val multiplier (inr (inl e)) small = rw e (ground arith)
exact val multiplier (inr (inr (inl e))) small = rw e (ground arith)
exact val multiplier (inr (inr (inr e))) small = rw e (ground arith)

signed_small :
    (neg : Bool) (digits : Option ℕ) (val : ℕ) → signed neg digits ≡ some (pos val) → val < 2 ^ 63
signed_small neg none val e = cc
signed_small false (some n) val e = ground arith
signed_small true (some zero) val e = ground arith
signed_small true (some (suc n)) val e = ground arith

atoi_small : (s : Bytes) (val : ℕ) → atoi s ≡ some (pos val) → val < 2 ^ 63
unfolding atoi
atoi_small [] val e = cc
atoi_small (c ∷ s) val e = by_sign (c == b'-') (c == b'+') e
  where
    by_sign :
        (minus plus : Bool)
        → (if minus
            then signed true (read_number s)
            else if plus
            then signed false (read_number s)
            else signed false (read_number (c ∷ s)))
          ≡ some (pos val)
        → val < 2 ^ 63
    by_sign true plus e = signed_small true (read_number s) val e
    by_sign false true e = signed_small false (read_number s) val e
    by_sign false false e = signed_small false (read_number (c ∷ s)) val e

blank_nonempty : (s : Bytes) → is_empty (trim_space (to_upper s)) ≡ false → is_empty s ≡ false
unfolding trim_space to_upper
blank_nonempty [] h = cc
blank_nonempty (c ∷ s) h = refl

-- Where the text before the unit is a number that is not negative, the bandwidth is the product of
-- the number and the unit, if the product is below 2^63, and an overflow if it is not: the division
-- that checks the product finds every one that wraps around, and no other.
pub parse_bandwidth_lem :
    (s : Bytes) (val : ℕ)
    → is_empty (trim_space (to_upper s)) ≡ false
    → atoi (split_unit (trim_space (to_upper s))).0 ≡ some (pos val)
    → parse_bandwidth s ≡ (
        let product = val * (split_unit (trim_space (to_upper s))).1 in
        if ltb product (2 ^ 63) then ok (pos product) else err overflow)
unfolding parse_bandwidth
parse_bandwidth_lem s val given e =
    let (t, m) = split_unit (trim_space (to_upper s)) in
    rw (given, blank_nonempty s given, e)
      (exact val m (split_unit-IsUnit (trim_space (to_upper s))) (atoi_small t val e))
