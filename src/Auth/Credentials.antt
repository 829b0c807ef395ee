-- ===== src/Auth/Credentials.antt =====
-- internal/server/auth/credential.go. The random bytes are an argument, and so are the encoding of
-- the secret (encoding/base64) and the hash (crypto/sha256, in hexadecimal).
pub mod Tokens
use drip_ex.Base.{
  ltb, leb, ◌==◌, if◌then◌else◌, ==_iff, Bool-cases, and-eq-true, Option-cases, is_some, or_default,
  length, get_or, set, take, drop, replicate, all, any, find?, select, All, length-append,
  length-set, get_or-set_self, get_or-set_ne, take-length_append, drop-length_append, Bytes, codes,
  str_eq, str_eq_iff, str_eq_refl, is_empty, is_upper, is_digit, is_space, lower_byte, upper_byte,
  to_lower, to_upper, trim_left, trim_space, strip_prefix, contains_byte, equal_fold, Map, lookup,
  insert, delete, lookup-insert, lookup-delete, Distinct, insert-Distinct, delete-Distinct,
  delete_absent, count, count-insert, count-delete, tally, increment, decrement, tally-increment,
  tally-decrement, decrement-increment, Result, refuse_if, ◌>>=◌, ◌>>◌, >>=-eq-ok, ℤ, pos_part,
  neg_part, ◌≤ℤ◌, ltb_ℤ, ok, err, pos, negsuc, ℕ, zero, suc, ◌+◌, ◌-◌, ◌*◌, ◌/◌, ◌%◌, ◌^◌, ◌≤◌, ◌<◌,
  min, bit_xor, String, ◌≡◌, refl, sym, ap, subst, ◌∙◌, ◌≢◌, ◌↔◌, ◌⊎◌, inl, inr, Bool, true, false,
  not, ◌&&◌, ◌||◌, Option, none, some, List, [], ◌∷◌, ◌++◌, map, arith, ℕ_discrete,
}

abbrev pub underscore : ℕ
underscore = 95

abbrev pub credential_prefix : Bytes
credential_prefix = codes "drip"

abbrev pub credential_id_bytes : ℕ
credential_id_bytes = 8

pub record Credential : Type 0 where
  pub id : Bytes
  pub secret : Bytes

pub data CredentialError : Type 0 where
  malformed_credential : CredentialError

-- `Credential.String`.
unfoldable pub show_credential : Credential → Bytes
show_credential c = credential_prefix ++ underscore ∷ (c.id ++ underscore ∷ c.secret)

abbrev pub hex_digit : ℕ → ℕ
hex_digit n = if ltb n 10 then 48 + n else 87 + n

-- `hex.EncodeToString`.
unfoldable pub hex_encode : Bytes → Bytes
hex_encode [] = []
hex_encode (b ∷ bytes) = hex_digit (b / 16) ∷ hex_digit (b % 16) ∷ hex_encode bytes

abbrev pub is_hex : ℕ → Bool
is_hex c = is_digit c || (leb 97 c && leb c 102) || (leb 65 c && leb c 70)

-- `hex.DecodeString` takes an even number of digits.
unfoldable pub is_hex_string : Bytes → Bool
is_hex_string [] = true
is_hex_string (c ∷ []) = false
is_hex_string (c ∷ d ∷ s) = is_hex c && is_hex d && is_hex_string s

unfoldable pub generate_credential : (Bytes → Bytes) → Bytes → Bytes → Credential
generate_credential encode id_bytes secret_bytes = record {
  id = hex_encode id_bytes;
  secret = encode secret_bytes;
}

unfoldable pub is_credential : Bytes → Bool
unfolding strip_prefix
is_credential token = is_some (strip_prefix (credential_prefix ++ underscore ∷ []) token)

abbrev in_front : ℕ → Option (Bytes × Bytes) → Option (Bytes × Bytes)
in_front c none = none
in_front c (some (s, rest)) = some (c ∷ s, rest)

-- What stands before and after the first separator.
unfoldable pub cut_at : ℕ → Bytes → Option (Bytes × Bytes)
cut_at sep [] = none
cut_at sep (c ∷ s) = let rest = in_front c (cut_at sep s) in if c == sep then some ([], s) else rest

abbrev pub check_fields : Bytes → Bytes → Bytes → Result CredentialError Credential
check_fields prefix id secret = do
  refuse_if (not (str_eq prefix credential_prefix)) malformed_credential
  refuse_if (not (length id == credential_id_bytes * 2) || is_empty secret) malformed_credential
  refuse_if (not (is_hex_string id)) malformed_credential
  ok (record { id = id; secret = secret })

abbrev pub with_rest : Bytes → Option (Bytes × Bytes) → Result CredentialError Credential
with_rest prefix none = err malformed_credential
with_rest prefix (some (id, secret)) = check_fields prefix id secret

abbrev pub with_prefix : Option (Bytes × Bytes) → Result CredentialError Credential
with_prefix none = err malformed_credential
with_prefix (some (prefix, rest)) = with_rest prefix (cut_at underscore rest)

-- `SplitN` into three fields at the first two separators.
unfoldable pub parse_credential : Bytes → Result CredentialError Credential
parse_credential token = with_prefix (cut_at underscore token)

unfoldable pub verify_secret : (Bytes → Bytes) → Bytes → Bytes → Bool
verify_secret hash secret stored_hash = str_eq (hash secret) stored_hash
