-- ===== src/Service/Auth.antt =====
-- `AuthService` of internal/service/auth.go. argon2, the random source and the JWT library are
-- parameters.
pub mod Bits
pub mod Compare
pub mod Hashing
pub mod Sessions
use feature_voting_system.Prelude.{
  ℕ, ◌*◌, ◌+◌, Bool, true, false, List, [], ◌∷◌, ◌++◌, Option, none, some, Bytes, codes, ℤ, pos,
  ◌+ℤ◌, ltb, ◌==◌, if◌then◌else◌, length, not,
}
use feature_voting_system.Errors.{Sentinel, sentinel, Error, plain, prefixed, join, Result, ok, err}
use feature_voting_system.Text.Base64
use feature_voting_system.Text.Base64.{Alphabet}
use feature_voting_system.Text.Decimal.{write_int}
use feature_voting_system.Text.Split.{split}
use feature_voting_system.Service.User.{Passwords}
use feature_voting_system.Service.Auth.Bits.{bits_xor, bits_or}

abbrev pub argon2_memory : ℕ
argon2_memory = 64 * 1024

abbrev pub argon2_iterations : ℕ
argon2_iterations = 3

abbrev pub argon2_parallelism : ℕ
argon2_parallelism = 2

abbrev pub argon2_key_len : ℕ
argon2_key_len = 32

-- `argon2.IDKey(password, salt, time, memory, threads, keyLen)`
abbrev pub IdKey : Type 0
IdKey = Bytes → Bytes → ℕ → ℕ → ℕ → ℕ → Bytes

abbrev pub key_of : IdKey → Bytes → Bytes → ℕ → Bytes
key_of id_key password salt key_len =
    id_key password salt argon2_iterations argon2_memory argon2_parallelism key_len

-- `fmt.Sprintf("$argon2id$v=19$m=%d,t=%d,p=%d$%s$%s", …)`
abbrev pub parameters : Bytes
parameters =
    codes "m="
    ++ (write_int (pos argon2_memory)
        ++ (codes ",t="
            ++ (write_int (pos argon2_iterations)
                ++ (codes ",p=" ++ write_int (pos argon2_parallelism)))))

abbrev pub encode_hash : Bytes → Bytes → Bytes
encode_hash salt hash =
    let text = Base64.encode Alphabet.std in
    let salted = parameters ++ (b'$' ∷ (text salt ++ (b'$' ∷ text hash))) in
    b'$' ∷ (codes "argon2id" ++ (b'$' ∷ (codes "v=19" ++ (b'$' ∷ salted))))

-- `salt` is what `rand.Read` gives.
unfoldable pub hash_password : IdKey → Result Bytes → Bytes → Result Bytes
hash_password id_key (err e) password = err (prefixed (codes "generate salt: ") e)
hash_password id_key (ok salt) password =
    ok (encode_hash salt (key_of id_key password salt argon2_key_len))

-- The loop `diff |= hash[i] ^ expectedHash[i]` on bytes.
pub differences : ℕ → Bytes → Bytes → ℕ
differences diff [] t = diff
differences diff (a ∷ s) [] = diff
differences diff (a ∷ s) (b ∷ t) = differences (bits_or 8 diff (bits_xor 8 a b)) s t

pub equal_hashes : Bytes → Bytes → Bool
unfolding differences
equal_hashes hash expected =
    if length hash == length expected then differences 0 hash expected == 0 else false

abbrev compare_decoded : IdKey → Bytes → Option Bytes → Option Bytes → Bool
compare_decoded id_key password none expected = false
compare_decoded id_key password (some salt) none = false
compare_decoded id_key password (some salt) (some expected) =
    equal_hashes (key_of id_key password salt (length expected)) expected

abbrev verify_parts : IdKey → Bytes → List Bytes → Bool
verify_parts id_key password (_ ∷ _ ∷ _ ∷ _ ∷ salt ∷ hash ∷ []) =
    compare_decoded id_key password (Base64.decode Alphabet.std salt)
      (Base64.decode Alphabet.std hash)
verify_parts id_key password parts = false

unfoldable pub verify_password : IdKey → Bytes → Bytes → Bool
verify_password id_key encoded password = verify_parts id_key password (split b'$' encoded)

-- What `UserService` takes from this service, in a call whose salt is this one.
abbrev pub argon2_passwords : IdKey → Result Bytes → Passwords
argon2_passwords id_key salt = record {
  hash_password = hash_password id_key salt;
  verify_password = verify_password id_key;
}

-- The claims of a token: `uid`, `exp` and `iat`, which are NumericDates, in seconds since 1970.
pub record JwtClaims : Type 0 where
  pub user_id : Bytes
  pub expires_at : ℤ
  pub issued_at : ℤ

-- The signing method that a token's header names.
pub data Method : Type 0 where
  hmac : Method
  other : Bytes → Method

-- The JWT library: the NumericDate of a time in nanoseconds, signing with HS256, and parsing at a
-- time with a function that gives the key; the Boolean is `token.Valid`.
pub record Jwt : Type 0 where
  pub new_numeric_date : ℤ → ℤ
  pub signed_string : Bytes → JwtClaims → Result Bytes
  pub parse_with_claims : ℤ → Bytes → (Method → Result Bytes) → Result (JwtClaims × Bool)

pub record AuthService : Type 0 where
  pub access_secret : Bytes
  pub refresh_secret : Bytes
  pub access_ttl : ℤ
  pub refresh_ttl : ℤ

abbrev pub key_func : Bytes → Method → Result Bytes
key_func secret Method.hmac = ok secret
key_func secret (Method.other alg) = err (plain (codes "unexpected signing method: " ++ alg))

-- `now` is what both calls of `time.Now` give; times and lifetimes are in nanoseconds.
abbrev pub claims_at : Jwt → ℤ → Bytes → ℤ → JwtClaims
claims_at jwt now user_id ttl = record {
  user_id = user_id;
  expires_at = jwt.new_numeric_date (now +ℤ ttl);
  issued_at = jwt.new_numeric_date now;
}

abbrev signed : Result Bytes → Result Bytes
signed (err e) = err (prefixed (codes "sign token: ") e)
signed (ok token) = ok token

abbrev pub issue_token : Jwt → ℤ → Bytes → Bytes → ℤ → Result Bytes
issue_token jwt now user_id secret ttl =
    signed (jwt.signed_string secret (claims_at jwt now user_id ttl))

abbrev checked : Result (JwtClaims × Bool) → Result Bytes
checked (err e) = err (join (sentinel Sentinel.unauthorized) e)
checked (ok (claims, valid)) =
    if not valid then err (sentinel Sentinel.unauthorized) else ok claims.user_id

-- The `TokenClaims` are the user's id alone.
abbrev pub verify_token : Jwt → ℤ → Bytes → Bytes → Result Bytes
verify_token jwt now token secret = checked (jwt.parse_with_claims now token (key_func secret))

module _ (jwt : Jwt) (auth : AuthService) (now : ℤ) where
  abbrev pub issue_access_token : Bytes → Result Bytes
  issue_access_token user_id = issue_token jwt now user_id auth.access_secret auth.access_ttl

  abbrev pub issue_refresh_token : Bytes → Result Bytes
  issue_refresh_token user_id = issue_token jwt now user_id auth.refresh_secret auth.refresh_ttl

  abbrev pub verify_access_token : Bytes → Result Bytes
  verify_access_token token = verify_token jwt now token auth.access_secret

  abbrev pub verify_refresh_token : Bytes → Result Bytes
  verify_refresh_token token = verify_token jwt now token auth.refresh_secret
