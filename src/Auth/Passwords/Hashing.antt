-- ===== src/Auth/Passwords/Hashing.antt =====
-- Which passwords a hash of internal/server/auth/password.go accepts.
use drip_ex.Base.{
  Bool-cases, length, Bytes, codes, str_eq, str_eq_refl, is_empty, contains_byte, pos, ℕ, ◌≡◌, refl,
  ap, subst, ◌∙◌, inl, inr, true, false, some, [], ◌∷◌, ◌++◌, arith,
}
use drip_ex.Names.Decimal.{show, digits_from}
use drip_ex.Auth.Passwords.{
  Crypto, dollar, derived_key, split_on, hash_password, verify_parts, verify_password,
}

-- The documented behaviour of the packages at what the server passes to them: an encoding has no
-- dollar sign and is read back, keys have the length that is asked for, and the numbers that
-- `HashPassword` prints are read back.
pub record IsFaithful (c : Crypto) : Type 0 where
  pub decodes : (b : Bytes) → c.decode (c.encode b) ≡ some b
  pub plain : (b : Bytes) → contains_byte dollar (c.encode b) ≡ false
  pub key_length : (password salt : Bytes) → length (derived_key c password salt) ≡ 32
  pub version : c.scan_version (codes "v=19") ≡ some (pos 19)
  pub costs : c.scan_costs (codes "m=65536,t=3,p=4") ≡ some (65536, 3, 4)

split-plain : (sep : ℕ) (s : Bytes) → contains_byte sep s ≡ false → split_on sep s ≡ s ∷ []
unfolding split_on contains_byte
split-plain sep [] h = refl
split-plain sep (c ∷ s) h = ground (arith, split-plain sep s)

split-append :
    (sep : ℕ) (s rest : Bytes)
    → contains_byte sep s ≡ false
    → split_on sep (s ++ sep ∷ rest) ≡ s ∷ split_on sep rest
unfolding split_on contains_byte
split-append sep [] rest h = ground arith
split-append sep (c ∷ s) rest h = ground (arith, split-append sep s rest)

-- A hash as text.
abbrev printed : Bytes → Bytes → Bytes
printed salt key = codes "$argon2id$v=19$m=65536,t=3,p=4$" ++ (salt ++ dollar ∷ key)

hash_printed :
    (c : Crypto) (salt password : Bytes)
    → is_empty password ≡ false
    → hash_password c salt password
      ≡ some (printed (c.encode salt) (c.encode (derived_key c password salt)))
unfolding hash_password show digits_from
hash_printed c salt [] h = cc
hash_printed c salt (b ∷ password) h = refl

split-printed :
    (salt key : Bytes)
    → contains_byte dollar salt ≡ false
    → contains_byte dollar key ≡ false
    → split_on dollar (printed salt key)
      ≡ [] ∷ codes "argon2id" ∷ codes "v=19" ∷ codes "m=65536,t=3,p=4" ∷ salt ∷ key ∷ []
unfolding split_on
split-printed salt key plain_salt plain_key =
    rw (split-append dollar salt key plain_salt, split-plain dollar key plain_key) refl

module _ (c : Crypto) (f : IsFaithful c) where
  verify-printed :
      (salt password other : Bytes)
      → verify_password c other (printed (c.encode salt) (c.encode (derived_key c password salt)))
        ≡ some (str_eq (derived_key c other salt) (derived_key c password salt))
  unfolding verify_password verify_parts str_eq
  verify-printed salt password other =
      let key = derived_key c password salt in
      rw
        (
          split-printed (c.encode salt) (c.encode key) (f.plain salt) (f.plain key),
          f.version,
          f.costs,
          f.decodes salt,
          f.decodes key,
          f.key_length password salt,
        )
        refl

  -- No hash is made of the empty password. A hash that is made is well formed: the password that it
  -- was made of is accepted, and any other is accepted if and only if Argon2id derives the same key
  -- from it and the salt.
  pub verify-hash_password :
      (salt password other encoded : Bytes)
      → hash_password c salt password ≡ some encoded
      → (is_empty password ≡ false)
        × (verify_password c password encoded ≡ some true)
        × (verify_password c other encoded
            ≡ some (str_eq (derived_key c other salt) (derived_key c password salt)))
  unfolding hash_password
  verify-hash_password salt password other encoded e = elim (Bool-cases (is_empty password)) [
    | inl empty ↦ absurd (no_hash empty)
    | inr there ↦
        let same : printed (c.encode salt) (c.encode (derived_key c password salt)) ≡ encoded =
          cc (hash_printed c salt password there) in
        (
          there,
          subst (λ h. verify_password c password h ≡ some true) same
              (verify-printed salt password password ∙ ap some (str_eq_refl _)),
          subst
              (λ h.
                verify_password c other h
                ≡ some (str_eq (derived_key c other salt) (derived_key c password salt)))
              same (verify-printed salt password other),
        )
  ]
    where
      no_hash : is_empty password ≡ true → ⊥
      no_hash empty = ground arith
