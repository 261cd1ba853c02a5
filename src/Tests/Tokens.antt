-- ===== src/Tests/Tokens.antt =====
-- Tokens that hold their key and their claims, and an error unless they are read with this key.
use feature_voting_system.Prelude.{
  ℕ, ◌≡◌, refl, ap, ◌∙◌, true, false, Bool, [], ◌∷◌, ◌++◌, Option, none, some, Bytes, codes, ℤ, pos,
  negsuc, ltb_ℤ, ◌<ℤ◌, ◌≤ℤ◌, ◌+ℤ◌, length, take, drop, take-append, drop-append, bytes_eq,
  bytes_eq_refl, if◌then◌else◌, ◌==◌, arith, ◌&&◌, ◌/◌,
}
use feature_voting_system.Errors.{plain, Result, ok, err}
use feature_voting_system.Service.Auth.{Method, Jwt, JwtClaims, AuthService, claims_at}
use feature_voting_system.Service.Auth.Sessions.{JwtLaws, IsForeign, IsSecondOf, seconds}

abbrev put_int : ℤ → Bytes → Bytes
put_int (pos n) s = 0 ∷ n ∷ s
put_int (negsuc n) s = 1 ∷ n ∷ s

abbrev get_int : ℕ → ℕ → ℤ
get_int tag n = if tag == 0 then pos n else negsuc n

abbrev put_claims : JwtClaims → Bytes
put_claims c = put_int c.expires_at (put_int c.issued_at c.user_id)

abbrev get_claims : Bytes → Option JwtClaims
get_claims (a ∷ n ∷ b ∷ m ∷ user) =
    some (record { user_id = user; expires_at = get_int a n; issued_at = get_int b m })
get_claims s = none

get-put_claims : (c : JwtClaims) → get_claims (put_claims c) ≡ some c
get-put_claims c = ground arith

abbrev put_token : Bytes → JwtClaims → Bytes
put_token key claims = length key ∷ (key ++ put_claims claims)

abbrev bad : Result (JwtClaims × Bool)
bad = err (plain (codes "token is invalid"))

abbrev read_claims : ℤ → Bool → Option JwtClaims → Result (JwtClaims × Bool)
read_claims now same none = bad
read_claims now same (some c) =
    if same && ltb_ℤ now (seconds c.expires_at) then ok (c, true) else bad

abbrev read_with : ℤ → Bytes → Bytes → Result Bytes → Result (JwtClaims × Bool)
read_with now key rest (err e) = err e
read_with now key rest (ok k) = read_claims now (bytes_eq key k) (get_claims rest)

abbrev read_token : ℤ → Bytes → (Method → Result Bytes) → Result (JwtClaims × Bool)
read_token now [] f = bad
read_token now (n ∷ s) f = read_with now (take n s) (drop n s) (f Method.hmac)

abbrev whole_seconds : ℤ → ℤ
whole_seconds (pos n) = pos (n / 1_000_000_000)
whole_seconds (negsuc n) = negsuc (n / 1_000_000_000)

whole_seconds-IsSecondOf : (t : ℤ) → IsSecondOf (whole_seconds t) t
unfolding ◌+ℤ◌
whole_seconds-IsSecondOf (pos n) = ground arith
whole_seconds-IsSecondOf (negsuc n) = ground arith

abbrev pub jwt : Jwt
jwt = record {
  new_numeric_date = whole_seconds;
  signed_string = λ key claims. ok (put_token key claims);
  parse_with_claims = read_token;
}

read-put_token :
    (key : Bytes) (claims : JwtClaims) (now : ℤ) (f : Method → Result Bytes) (k : Bytes)
    → f Method.hmac ≡ ok k
    → read_token now (put_token key claims) f ≡ read_claims now (bytes_eq key k) (some claims)
read-put_token key claims now f k given =
    rw
      (
        take-append key (put_claims claims),
        drop-append key (put_claims claims),
        given,
        get-put_claims claims,
      )
      refl

same_token :
    (key token : Bytes) (claims : JwtClaims)
    → ok (put_token key claims) ≡ ok token
    → token ≡ put_token key claims
same_token key token claims e = cc

pub jwt-JwtLaws : JwtLaws jwt
jwt-JwtLaws = record {
  truncates = whole_seconds-IsSecondOf;
  accepts = λ key claims token now f made given live.
      (ap (λ t. read_token now t f) (same_token key token claims made)
        ∙ read-put_token key claims now f key given
        ∙ accepted key claims now live);
  expires = λ key claims token now f made given over. (
    plain (codes "token is invalid"),
    ap (λ t. read_token now t f) (same_token key token claims made)
        ∙ read-put_token key claims now f key given
        ∙ expired key claims now over,
  );
}
  where
    accepted :
        (key : Bytes) (claims : JwtClaims) (now : ℤ)
        → now <ℤ seconds claims.expires_at
        → read_claims now (bytes_eq key key) (some claims) ≡ ok (claims, true)
    accepted key claims now live = ground (arith, bytes_eq_refl key)

    expired :
        (key : Bytes) (claims : JwtClaims) (now : ℤ)
        → seconds claims.expires_at ≤ℤ now
        → read_claims now (bytes_eq key key) (some claims) ≡ bad
    expired key claims now over = ground (arith, bytes_eq_refl key)

pub foreign : (key other : Bytes) → bytes_eq key other ≡ false → IsForeign jwt key other
foreign key other differ claims token now f made given = (
  plain (codes "token is invalid"),
  ap (λ t. read_token now t f) (same_token key token claims made)
      ∙ read-put_token key claims now f other given
      ∙ ap (λ b. read_claims now b (some claims)) differ,
)

abbrev pub service : AuthService
service = record {
  access_secret = codes "access";
  refresh_secret = codes "refresh";
  access_ttl = pos 900_000_000_000;
  refresh_ttl = pos 604_800_000_000_000;
}

abbrev pub token_of : Bytes → ℤ → ℤ → Bytes → Bytes
token_of secret now ttl user = put_token secret (claims_at jwt now user ttl)
