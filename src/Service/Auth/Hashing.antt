-- ===== src/Service/Auth/Hashing.antt =====
-- Passwords that are hashed and verified.
use feature_voting_system.Prelude.{
  ℕ, ◌≤◌, ◌≡◌, ◌↔◌, refl, ap, sym, ◌∙◌, true, false, [], ◌∷◌, Bytes, AreBytes, All-map, All-append,
  ℤ, pos, codes, length, ◌==◌, arith, bytes_eq,
}
use feature_voting_system.Errors.{ok}
use feature_voting_system.Text.Base64
use feature_voting_system.Text.Base64.{Alphabet}
use feature_voting_system.Text.Base64.RoundTrip.{decode-encode, encode-ge}
use feature_voting_system.Text.Decimal.{write_int}
use feature_voting_system.Text.Decimal.RoundTrip.{IsPlain, write_int-IsPlain}
use feature_voting_system.Text.Split.{Lacks, split, split-append, split-Lacks}
use feature_voting_system.Service.Auth.{
  argon2_passwords, IdKey, key_of, parameters, encode_hash, argon2_memory, argon2_iterations,
  argon2_parallelism, argon2_key_len, hash_password, verify_password, equal_hashes,
}
use feature_voting_system.Service.User.Accounts.{PasswordLaws}
use feature_voting_system.Service.Auth.Compare.{equal_hashes_iff}

ok_inj : {a b : Bytes} → ok a ≡ ok b → a ≡ b
ok_inj h = cc

-- The key has the length that was asked for.
pub record IdKeyLaws (id_key : IdKey) : Type 0 where
  pub length-key : (password salt : Bytes) (n : ℕ) → length (key_of id_key password salt n) ≡ n
  pub key-AreBytes : (password salt : Bytes) (n : ℕ) → AreBytes (key_of id_key password salt n)

-- No symbol of the alphabets is a `$`.
encode-Lacks_dollar : (s : Bytes) → AreBytes s → Lacks b'$' (Base64.encode Alphabet.std s)
encode-Lacks_dollar s h =
    All-map (λ c. 43 ≤ c) (λ c. (c == b'$') ≡ false) (Base64.encode Alphabet.std s)
      (λ c above. ground arith) (encode-ge Alphabet.std s h)

write_int-Lacks_dollar : (z : ℤ) → Lacks b'$' (write_int z)
write_int-Lacks_dollar z =
    All-map IsPlain (λ c. (c == b'$') ≡ false) (write_int z) (λ c plain. ground arith)
      (write_int-IsPlain z)

parameters-Lacks_dollar : Lacks b'$' parameters
parameters-Lacks_dollar =
    let join = All-append (λ c. (c == b'$') ≡ false) in
    join (codes "m=") _ (ground arith) (
      join (write_int (pos argon2_memory)) _ (write_int-Lacks_dollar (pos argon2_memory)) (
        join (codes ",t=") _ (ground arith) (
          join (write_int (pos argon2_iterations)) _
            (write_int-Lacks_dollar (pos argon2_iterations))
            (join (codes ",p=") (write_int (pos argon2_parallelism)) (ground arith)
              (write_int-Lacks_dollar (pos argon2_parallelism))))))

-- A hash falls into six parts at its `$`.
split-encode_hash :
    (salt hash : Bytes)
    → AreBytes salt
    → AreBytes hash
    → split b'$' (encode_hash salt hash)
      ≡ []
        ∷ codes "argon2id"
        ∷ codes "v=19"
        ∷ parameters
        ∷ Base64.encode Alphabet.std salt
        ∷ Base64.encode Alphabet.std hash
        ∷ []
split-encode_hash salt hash hs hh =
    let text = Base64.encode Alphabet.std in
    let last =
      split-append b'$' (text salt) (text hash) (encode-Lacks_dollar salt hs)
      ∙ ap (text salt ∷◌) (split-Lacks b'$' (text hash) (encode-Lacks_dollar hash hh)) in
    split-append b'$' [] _ tt
    ∙ ap ([] ∷◌) (
        split-append b'$' (codes "argon2id") _ (ground arith)
        ∙ ap (codes "argon2id" ∷◌) (
            split-append b'$' (codes "v=19") _ (ground arith)
            ∙ ap (codes "v=19" ∷◌)
                (split-append b'$' parameters _ parameters-Lacks_dollar ∙ ap (parameters ∷◌) last)))

verify-encode_hash :
    (id_key : IdKey) (salt hash other : Bytes)
    → AreBytes salt
    → AreBytes hash
    → verify_password id_key (encode_hash salt hash) other
      ≡ equal_hashes (key_of id_key other salt (length hash)) hash
unfolding verify_password
verify-encode_hash id_key salt hash other hs hh = ground (
  arith,
  split-encode_hash salt hash hs hh,
  decode-encode Alphabet.std salt hs,
  decode-encode Alphabet.std hash hh,
)

-- A password verifies against a hash exactly when argon2 derives the same key from it and the
-- hash's salt as from the password that was hashed. argon2 returns as many bytes as it is asked
-- for.
pub verify-hash_password :
    (id_key : IdKey) (salt password other hash : Bytes)
    → IdKeyLaws id_key
    → AreBytes salt
    → hash_password id_key (ok salt) password ≡ ok hash
    → (verify_password id_key hash other ≡ true)
      ↔ (key_of id_key other salt argon2_key_len ≡ key_of id_key password salt argon2_key_len)
unfolding hash_password
verify-hash_password id_key salt password other hash laws hs made =
    let key = key_of id_key password salt argon2_key_len in
    let key_bytes = laws.key-AreBytes password salt argon2_key_len in
    let there : verify_password id_key hash other
        ≡ equal_hashes (key_of id_key other salt argon2_key_len) key =
      ap (λ h. verify_password id_key h other) (ok_inj (sym made))
      ∙ verify-encode_hash id_key salt key other hs key_bytes
      ∙ ap (λ n. equal_hashes (key_of id_key other salt n) key)
          (laws.length-key password salt argon2_key_len) in
    rw there (
      equal_hashes_iff (key_of id_key other salt argon2_key_len) key
        (laws.key-AreBytes other salt argon2_key_len) key_bytes)

never_empty :
    (id_key : IdKey) (salt password hash : Bytes)
    → hash_password id_key (ok salt) password ≡ ok hash
    → bytes_eq hash (codes "") ≡ false
unfolding hash_password bytes_eq
never_empty id_key salt password hash made = ap (λ h. bytes_eq h (codes "")) (ok_inj (sym made))

-- With a salt from the random source, a hash verifies the password that it was made of and is not
-- empty, which is what `UserService` relies on. argon2 returns as many bytes as it is asked for.
pub argon2-PasswordLaws :
    (id_key : IdKey) (salt : Bytes)
    → IdKeyLaws id_key
    → AreBytes salt
    → PasswordLaws (argon2_passwords id_key (ok salt))
argon2-PasswordLaws id_key salt laws hs = record {
  verifies = λ password hash made.
      (verify-hash_password id_key salt password password hash laws hs made).1 refl;
  not_empty = λ password hash made. never_empty id_key salt password hash made;
}
