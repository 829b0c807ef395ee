-- ===== src/Auth/Passwords.antt =====
-- The hashes of the operators' passwords: internal/server/auth/password.go. Argon2id, base64 and
-- `fmt.Sscanf` are not of the repository and stand as parameters.
pub mod Hashing
use drip_ex.Base.{
  ltb, leb, ◌==◌, if◌then◌else◌, ==_iff, Bool-cases, and-eq-true, Option-cases, is_some, or_default,
  length, get_or, set, take, drop, replicate, all, any, find?, select, All, length-append,
  length-set, get_or-set_self, get_or-set_ne, take-length_append, drop-length_append, Bytes, codes,
  str_eq, str_eq_iff, str_eq_refl, is_empty, is_empty_ne, ne_is_empty, is_upper, is_digit, is_space,
  lower_byte, upper_byte, to_lower, to_upper, trim_left, trim_space, strip_prefix, contains_byte,
  equal_fold, Map, lookup, insert, delete, lookup-insert, lookup-delete, Distinct, insert-Distinct,
  delete-Distinct, delete_absent, count, count-insert, count-replace, count-delete, tally,
  increment, decrement, tally-increment, tally-decrement, decrement-increment, Result, refuse_if,
  ◌>>=◌, ◌>>◌, >>=-eq-ok, ℤ, pos_part, neg_part, ◌≤ℤ◌, ltb_ℤ, NoClash, select-NoClash, All-map,
  All-weaken, All-select, any-All, All-any, All-both, All-units, any-map, any-select, map-NoClash,
  map-NoClash_pairs, ok, err, pos, negsuc, ℕ, zero, suc, ◌+◌, ◌-◌, ◌*◌, ◌/◌, ◌%◌, ◌^◌, ◌≤◌, ◌<◌,
  min, bit_xor, String, ◌≡◌, refl, sym, ap, subst, ◌∙◌, ◌≢◌, ◌↔◌, ◌⊎◌, inl, inr, Bool, true, false,
  not, ◌&&◌, ◌||◌, Option, none, some, List, [], ◌∷◌, ◌++◌, map, arith, ℕ_discrete,
}
use drip_ex.Names.Decimal.{show}

abbrev pub argon_time : ℕ
argon_time = 3

-- 64 MiB.
abbrev pub argon_memory : ℕ
argon_memory = 65536

abbrev pub argon_threads : ℕ
argon_threads = 4

abbrev pub argon_key_len : ℕ
argon_key_len = 32

-- `argon2.Version`.
abbrev pub argon_version : ℕ
argon_version = 19

abbrev pub dollar : ℕ
dollar = b'$'

pub record Crypto : Type 0 where
  -- `argon2.IDKey`: password, salt, time, memory, threads and length of the key.
  pub id_key : Bytes → Bytes → ℕ → ℕ → ℕ → ℕ → Bytes
  -- `base64.RawStdEncoding`.
  pub encode : Bytes → Bytes
  pub decode : Bytes → Option Bytes
  -- `fmt.Sscanf` with "v=%d" and with "m=%d,t=%d,p=%d".
  pub scan_version : Bytes → Option ℤ
  pub scan_costs : Bytes → Option (ℕ × ℕ × ℕ)

-- `strings.Split` by one byte.
abbrev pub onto_first : ℕ → List Bytes → List Bytes
onto_first c [] = (c ∷ []) ∷ []
onto_first c (part ∷ parts) = (c ∷ part) ∷ parts

unfoldable pub split_on : ℕ → Bytes → List Bytes
split_on sep [] = [] ∷ []
split_on sep (c ∷ s) =
    let rest = split_on sep s in if c == sep then [] ∷ rest else onto_first c rest

infixl 5 ◌>>=?◌
abbrev ◌>>=?◌ : {A B : Type 0} → Option A → (A → Option B) → Option B
none >>=? f = none
some a >>=? f = f a

module _ (c : Crypto) where
  -- The key of the hashes that the server makes.
  abbrev pub derived_key : Bytes → Bytes → Bytes
  derived_key password salt =
      c.id_key password salt argon_time argon_memory argon_threads argon_key_len

  -- `salt` is what `rand.Read` fills in; `none` is an error.
  unfoldable pub hash_password : Bytes → Bytes → Option Bytes
  hash_password salt password =
      if is_empty password
      then none
      else some (
          codes "$argon2id$v="
          ++ (show argon_version
              ++ (codes "$m="
                  ++ (show argon_memory
                      ++ (codes ",t="
                          ++ (show argon_time
                              ++ (codes ",p="
                                  ++ (show argon_threads
                                      ++ (codes "$"
                                          ++ (c.encode salt
                                              ++ (codes "$"
                                                  ++ c.encode (derived_key password salt))))))))))))

  abbrev keys_agree : Bytes → Bytes → Bytes → ℕ × ℕ × ℕ → Bool
  keys_agree password salt want (memory, time, threads) =
      str_eq (c.id_key password salt time memory threads (length want % 2 ^ 32)) want

  unfoldable pub verify_parts : Bytes → List Bytes → Option Bool
  verify_parts password (lead ∷ name ∷ version ∷ costs ∷ salt ∷ key ∷ []) =
      if not (str_eq name (codes "argon2id"))
      then none
      else c.scan_version version >>=? λ v.
          if not (is_version v)
          then none
          else c.scan_costs costs >>=? λ used. c.decode salt >>=? λ salt_bytes.
              c.decode key >>=? λ want. some (keys_agree password salt_bytes want used)
    where
      is_version : ℤ → Bool
      is_version (pos n) = n == argon_version
      is_version (negsuc n) = false
  verify_parts password parts = none

  unfoldable pub verify_password : Bytes → Bytes → Option Bool
  unfolding split_on verify_parts
  verify_password password encoded = verify_parts password (split_on dollar encoded)
