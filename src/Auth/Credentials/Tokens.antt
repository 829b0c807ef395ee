-- ===== src/Auth/Credentials/Tokens.antt =====
-- Credentials and their wire form.
use drip_ex.Base.{
  ◌==◌, if◌then◌else◌, ==_iff, length, All, Bytes, str_eq, str_eq_iff, is_empty, is_empty_ne,
  ne_is_empty, ok, ℕ, ◌*◌, ◌/◌, ◌%◌, ◌<◌, ◌≡◌, refl, sym, ap, subst, ◌∙◌, ◌≢◌, Bool, true, false,
  Option, none, some, [], ◌∷◌, ◌++◌, arith,
}
use drip_ex.Auth.Credentials.{
  Credential, underscore, credential_prefix, show_credential, hex_digit, hex_encode, is_hex,
  is_hex_string, generate_credential, in_front, cut_at, check_fields, with_rest, with_prefix,
  parse_credential,
}

-- 16 hexadecimal digits, and a secret that is not empty.
pub record IsCredential (c : Credential) : Type 0 where
  pub size : length c.id ≡ 16
  pub hex : is_hex_string c.id ≡ true
  pub secret : c.secret ≢ []

hex_ne : (c : ℕ) → is_hex c ≡ true → (c == underscore) ≡ false
hex_ne c h = ground arith

cut_at-hex :
    (s rest : Bytes)
    → is_hex_string s ≡ true
    → cut_at underscore (s ++ underscore ∷ rest) ≡ some (s, rest)
unfolding is_hex_string cut_at
cut_at-hex [] rest h = refl
cut_at-hex (c ∷ []) rest h = cc
cut_at-hex (c ∷ d ∷ s) rest h =
    let no_c : (c == underscore) ≡ false = hex_ne c (ground arith) in
    let no_d : (d == underscore) ≡ false = hex_ne d (ground arith) in
    rw (no_c, no_d, cut_at-hex s rest (ground arith)) refl

-- A credential of 16 hexadecimal digits and a secret reads back from its wire form, even where the
-- secret has underscores.
pub parse-show_credential :
    (c : Credential) → IsCredential c → parse_credential (show_credential c) ≡ ok c
unfolding parse_credential show_credential cut_at str_eq
parse-show_credential c w =
    let fields : cut_at underscore (c.id ++ underscore ∷ c.secret) ≡ some (c.id, c.secret) =
      cut_at-hex c.id c.secret w.hex in
    let long : (length c.id == 16) ≡ true = ground (arith, w.size) in
    let kept : is_empty c.secret ≡ false = ne_is_empty c.secret w.secret in
    rw (fields, long, kept, w.hex) refl

cut_step :
    (here : Bool) (sep c : ℕ) (s before after : Bytes) (rest : Option (Bytes × Bytes))
    → (here ≡ true → c ≡ sep)
    → ((x y : Bytes) → rest ≡ some (x, y) → s ≡ x ++ sep ∷ y)
    → (if here then some ([], s) else in_front c rest) ≡ some (before, after)
    → c ∷ s ≡ before ++ sep ∷ after
cut_step true sep c s before after rest same back e =
    let first : [] ≡ before = ground arith in
    let tail : s ≡ after = ground arith in rw (sym first, sym tail, same refl) refl
cut_step false sep c s before after none same back e = cc
cut_step false sep c s before after (some (x, y)) same back e =
    let first : c ∷ x ≡ before = ground arith in
    let tail : y ≡ after = ground arith in rw (sym first, sym tail) (ap (◌∷◌ c) (back x y refl))

cut_apart :
    (sep : ℕ) (s before after : Bytes)
    → cut_at sep s ≡ some (before, after)
    → s ≡ before ++ sep ∷ after
unfolding cut_at
cut_apart sep [] before after e = cc
cut_apart sep (c ∷ s) before after e =
    cut_step (c == sep) sep c s before after (cut_at sep s) ((==_iff c sep).0) (cut_apart sep s) e

-- The fields passed the checks.
record IsParsed (prefix id secret : Bytes) (c : Credential) : Type 0 where
  marked : prefix ≡ credential_prefix
  same : record { id = id; secret = secret } ≡ c
  valid : IsCredential (record { id = id; secret = secret })

check_fields_ok :
    (prefix id secret : Bytes) (c : Credential)
    → check_fields prefix id secret ≡ ok c
    → IsParsed prefix id secret c
check_fields_ok prefix id secret c e = record {
  marked = (str_eq_iff prefix credential_prefix).0 (ground arith);
  same = ground arith;
  valid = record {
    size = ground arith;
    hex = ground arith;
    secret = is_empty_ne secret (ground arith);
  };
}

with_rest_ok :
    (prefix : Bytes) (m : Option (Bytes × Bytes)) (c : Credential)
    → with_rest prefix m ≡ ok c
    → (id : Bytes) × (secret : Bytes) × (m ≡ some (id, secret)) × IsParsed prefix id secret c
with_rest_ok prefix none c e = cc
with_rest_ok prefix (some (id, secret)) c e =
    (id, secret, refl, check_fields_ok prefix id secret c e)

with_prefix_ok :
    (m : Option (Bytes × Bytes)) (c : Credential)
    → with_prefix m ≡ ok c
    → (prefix : Bytes) × (rest : Bytes) × (m ≡ some (prefix, rest))
      × (with_rest prefix (cut_at underscore rest) ≡ ok c)
with_prefix_ok none c e = cc
with_prefix_ok (some (prefix, rest)) c e = (prefix, rest, refl, e)

-- A token that parses is the wire form of the credential that it gives, whose id has 16 hexadecimal
-- digits and whose secret is not empty.
pub show-parse_credential :
    (token : Bytes) (c : Credential)
    → parse_credential token ≡ ok c
    → (show_credential c ≡ token) × IsCredential c
unfolding parse_credential show_credential
show-parse_credential token c e =
    let (prefix, rest, first, e') = with_prefix_ok (cut_at underscore token) c e in
    let (id, secret, second, w) = with_rest_ok prefix (cut_at underscore rest) c e' in
    let whole = cut_apart underscore token prefix rest first in
    let fields = cut_apart underscore rest id secret second in
    (
      subst (λ k. show_credential k ≡ token) w.same
          (ap (λ k. k ++ underscore ∷ (id ++ underscore ∷ secret)) (sym w.marked)
            ∙ ap (λ k. prefix ++ underscore ∷ k) (sym fields)
            ∙ sym whole),
      subst IsCredential w.same w.valid,
    )

hex_digit-is_hex : (n : ℕ) → n < 16 → is_hex (hex_digit n) ≡ true
hex_digit-is_hex n h = ground arith

hex_encode_lem :
    (bytes : Bytes)
    → All (λ b. b < 256) bytes
    → (is_hex_string (hex_encode bytes) ≡ true) × (length (hex_encode bytes) ≡ 2 * length bytes)
unfolding hex_encode is_hex_string
hex_encode_lem [] h = (refl, refl)
hex_encode_lem (b ∷ bytes) (h, hs) =
    let (rest, long) = hex_encode_lem bytes hs in
    (
      rw (hex_digit-is_hex (b / 16) (omega arith), hex_digit-is_hex (b % 16) (omega arith)) rest,
      omega (arith, long),
    )

-- A credential made of 8 random bytes, and of a secret whose encoding is not empty, reads back
-- from its wire form.
pub parse-generate_credential :
    (encode : Bytes → Bytes) (id_bytes secret_bytes : Bytes)
    → length id_bytes ≡ 8
    → All (λ b. b < 256) id_bytes
    → encode secret_bytes ≢ []
    → parse_credential (show_credential (generate_credential encode id_bytes secret_bytes))
      ≡ ok (generate_credential encode id_bytes secret_bytes)
unfolding generate_credential
parse-generate_credential encode id_bytes secret_bytes size bytes kept =
    let (hex, long) = hex_encode_lem id_bytes bytes in
    parse-show_credential _ (record { size = omega (arith, long); hex = hex; secret = kept })
