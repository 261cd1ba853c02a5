-- ===== src/Service/Auth/Sessions.antt =====
-- Tokens that are issued and verified.
use feature_voting_system.Prelude.{
  suc, ◌*◌, ◌-◌, refl, inl, inr, sym, ap, ◌≡◌, ◌⊎◌, true, Bytes, ℤ, pos, negsuc, ◌+ℤ◌, ◌<ℤ◌, ◌≤ℤ◌,
  ltb_ℤ, arith, Bool-cases,
}
use mathlib.Core.Path.{subst}
use feature_voting_system.Errors.{
  Sentinel, sentinel, join, Error, error_is, Result, ok, err, Result-cases,
}
use feature_voting_system.Service.Auth.{
  JwtClaims, key_func, Method, Jwt, AuthService, claims_at, issue_token, verify_token,
  issue_access_token, issue_refresh_token, verify_access_token, verify_refresh_token,
}

-- The nanoseconds of so many seconds.
abbrev pub seconds : ℤ → ℤ
seconds (pos n) = pos (n * 1_000_000_000)
seconds (negsuc n) = negsuc (suc n * 1_000_000_000 - 1)

-- The last whole second up to a time.
abbrev pub IsSecondOf : ℤ → ℤ → Type 0
IsSecondOf k t = (seconds k ≤ℤ t) × (t <ℤ seconds k +ℤ pos 1_000_000_000)

pub second_unique : (k d t : ℤ) → IsSecondOf k t → IsSecondOf d t → d ≡ k
unfolding ◌+ℤ◌
second_unique (pos k) (pos d) t hk hd = ap pos (ground (arith, hk, hd))
second_unique (pos k) (negsuc d) t hk hd = absurd (ground (arith, hk, hd))
second_unique (negsuc k) (pos d) t hk hd = absurd (ground (arith, hk, hd))
second_unique (negsuc k) (negsuc d) t hk hd = ap negsuc (ground (arith, hk, hd))

-- A NumericDate is truncated to seconds. A token that was signed with a key is valid under this key
-- before the second that its claims name, and an error from then on.
pub record JwtLaws (jwt : Jwt) : Type 0 where
  pub truncates : (t : ℤ) → IsSecondOf (jwt.new_numeric_date t) t
  pub accepts :
      (key : Bytes) (claims : JwtClaims) (token : Bytes) (now : ℤ)
      (key_func : Method → Result Bytes)
      → jwt.signed_string key claims ≡ ok token
      → key_func Method.hmac ≡ ok key
      → now <ℤ seconds claims.expires_at
      → jwt.parse_with_claims now token key_func ≡ ok (claims, true)
  pub expires :
      (key : Bytes) (claims : JwtClaims) (token : Bytes) (now : ℤ)
      (key_func : Method → Result Bytes)
      → jwt.signed_string key claims ≡ ok token
      → key_func Method.hmac ≡ ok key
      → seconds claims.expires_at ≤ℤ now
      → (e : Error) × (jwt.parse_with_claims now token key_func ≡ err e)

-- What is signed with one key does not pass under the other.
abbrev pub IsForeign : Jwt → Bytes → Bytes → Type 0
IsForeign jwt key other_key =
    (claims : JwtClaims) (token : Bytes) (now : ℤ) (key_func : Method → Result Bytes)
    → jwt.signed_string key claims ≡ ok token
    → key_func Method.hmac ≡ ok other_key
    → (e : Error) × (jwt.parse_with_claims now token key_func ≡ err e)

abbrev pub IsUnauthorized : Result Bytes → Type 0
IsUnauthorized r = (e : Error) × (r ≡ err e) × (error_is e Sentinel.unauthorized ≡ true)

-- Before the second `k` the user's id, and from then on unauthorized.
abbrev pub NamesUntil : ℤ → ℤ → Bytes → Result Bytes → Type 0
NamesUntil k now user r =
    ((now <ℤ seconds k) × (r ≡ ok user)) ⊎ ((seconds k ≤ℤ now) × IsUnauthorized r)

issued :
    (jwt : Jwt) (issued_at : ℤ) (user secret token : Bytes) (ttl : ℤ)
    → issue_token jwt issued_at user secret ttl ≡ ok token
    → jwt.signed_string secret (claims_at jwt issued_at user ttl) ≡ ok token
issued jwt issued_at user secret token ttl h =
    elim (Result-cases (jwt.signed_string secret (claims_at jwt issued_at user ttl))) [
      | inl (t, e) ↦ ground arith
      | inr (m, e) ↦ absurd (ground arith)
    ]

token_refused :
    (jwt : Jwt) (token secret : Bytes) (now : ℤ)
    → (e : Error) × (jwt.parse_with_claims now token (key_func secret) ≡ err e)
    → IsUnauthorized (verify_token jwt now token secret)
token_refused jwt token secret now (e, failed) =
    rw failed (join (sentinel Sentinel.unauthorized) e, refl, refl)

token-NamesUntil :
    (jwt : Jwt) (user secret token : Bytes) (issued_at ttl now k : ℤ)
    → JwtLaws jwt
    → issue_token jwt issued_at user secret ttl ≡ ok token
    → IsSecondOf k (issued_at +ℤ ttl)
    → NamesUntil k now user (verify_token jwt now token secret)
token-NamesUntil jwt user secret token issued_at ttl now k laws made last =
    let claims = claims_at jwt issued_at user ttl in
    let signed = issued jwt issued_at user secret token ttl made in
    let date : claims.expires_at ≡ k =
      second_unique k claims.expires_at (issued_at +ℤ ttl) last
        (laws.truncates (issued_at +ℤ ttl)) in
    elim (Bool-cases (ltb_ℤ now (seconds k))) [
      | inl before ↦
          let live : now <ℤ seconds k = ground (arith, before) in
          inl (
            live,
            rw
                (laws.accepts secret claims token now (key_func secret) signed refl
                  (subst (λ d. now <ℤ seconds d) (sym date) live))
                refl,
          )
      | inr after ↦
          let over : seconds k ≤ℤ now = ground (arith, after) in
          inr (
            over,
            token_refused jwt token secret now (
                laws.expires secret claims token now (key_func secret) signed refl
                  (subst (λ d. seconds d ≤ℤ now) (sym date) over)),
          )
    ]

-- An access token names its user before the last whole second of its time, and is unauthorized from
-- then on; as a refresh token it is unauthorized at any time.
pub access_token_lem :
    (jwt : Jwt) (auth : AuthService) (user token : Bytes) (issued_at now k : ℤ)
    → JwtLaws jwt
    → IsForeign jwt auth.access_secret auth.refresh_secret
    → issue_access_token jwt auth issued_at user ≡ ok token
    → IsSecondOf k (issued_at +ℤ auth.access_ttl)
    → NamesUntil k now user (verify_access_token jwt auth now token)
      × IsUnauthorized (verify_refresh_token jwt auth now token)
access_token_lem jwt auth user token issued_at now k laws foreign made last =
    let signed = issued jwt issued_at user auth.access_secret token auth.access_ttl made in
    (
      token-NamesUntil jwt user auth.access_secret token issued_at auth.access_ttl now k laws made
          last,
      token_refused jwt token auth.refresh_secret now
          (foreign _ token now (key_func auth.refresh_secret) signed refl),
    )

-- A refresh token names its user before the last whole second of its time, and is unauthorized from
-- then on; as an access token it is unauthorized at any time.
pub refresh_token_lem :
    (jwt : Jwt) (auth : AuthService) (user token : Bytes) (issued_at now k : ℤ)
    → JwtLaws jwt
    → IsForeign jwt auth.refresh_secret auth.access_secret
    → issue_refresh_token jwt auth issued_at user ≡ ok token
    → IsSecondOf k (issued_at +ℤ auth.refresh_ttl)
    → NamesUntil k now user (verify_refresh_token jwt auth now token)
      × IsUnauthorized (verify_access_token jwt auth now token)
refresh_token_lem jwt auth user token issued_at now k laws foreign made last =
    let signed = issued jwt issued_at user auth.refresh_secret token auth.refresh_ttl made in
    (
      token-NamesUntil jwt user auth.refresh_secret token issued_at auth.refresh_ttl now k laws made
          last,
      token_refused jwt token auth.access_secret now
          (foreign _ token now (key_func auth.access_secret) signed refl),
    )

-- A token of at least a second is valid at the moment at which it is issued.
pub issued_live :
    (jwt : Jwt) (user secret token : Bytes) (now ttl : ℤ)
    → JwtLaws jwt
    → issue_token jwt now user secret ttl ≡ ok token
    → pos 1_000_000_000 ≤ℤ ttl
    → verify_token jwt now token secret ≡ ok user
unfolding ◌+ℤ◌
issued_live jwt user secret token now ttl laws made ahead =
    let claims = claims_at jwt now user ttl in
    rw
      (laws.accepts secret claims token now (key_func secret)
        (issued jwt now user secret token ttl made) refl
        (ground (arith, laws.truncates (now +ℤ ttl), ahead)))
      refl
