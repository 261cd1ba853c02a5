-- ===== src/Handler/Auth/Refresh.antt =====
-- The answers to a refresh, with the tokens of the service.
use feature_voting_system.Prelude.{
  ◌≡◌, ◌⊎◌, inl, inr, some, Bytes, codes, ℤ, pos, ◌+ℤ◌, ◌<ℤ◌, ◌≤ℤ◌, arith,
}
use feature_voting_system.Errors.{Error, ok, err}
use feature_voting_system.Http.{Request, value, write_json}
use feature_voting_system.Service.Auth.{
  Jwt, AuthService, issue_access_token, issue_refresh_token, verify_access_token,
}
use feature_voting_system.Service.Auth.Sessions.{
  JwtLaws, IsForeign, IsSecondOf, seconds, access_token_lem, refresh_token_lem, issued_live,
}
use feature_voting_system.Handler.Auth.{Tokens, access, tokens_of, refresh}

refresh_accepted :
    (tokens : Tokens) (r : Request) (form : Bytes → Bytes) (token user new_token : Bytes)
    → r.form ≡ some form
    → form (codes "refresh_token") ≡ token
    → tokens.verify_refresh_token token ≡ ok user
    → tokens.issue_access_token user ≡ ok new_token
    → refresh tokens r ≡ write_json 200 (value (access new_token))
unfolding refresh
refresh_accepted tokens r form token user new_token body given verified issued = ground arith

refresh_denied :
    (tokens : Tokens) (r : Request) (form : Bytes → Bytes) (token : Bytes) (e : Error)
    → r.form ≡ some form
    → form (codes "refresh_token") ≡ token
    → tokens.verify_refresh_token token ≡ err e
    → (refresh tokens r).status ≡ 401
unfolding refresh
refresh_denied tokens r form token e body given failed = ground arith

module _ (jwt : Jwt) (auth : AuthService) (laws : JwtLaws jwt)
    (foreign : IsForeign jwt auth.access_secret auth.refresh_secret)
    (foreign_refresh : IsForeign jwt auth.refresh_secret auth.access_secret) (r : Request)
    (form : Bytes → Bytes) (body : r.form ≡ some form) where
  -- A refresh token is exchanged for an access token, which names the same user at once, before the
  -- last whole second of its time; from then on the answer is 401. The access time to live is a
  -- second or more, signing does not fail, and the two secrets and the JWT library are as for the
  -- tokens themselves.
  pub refresh_lem :
      (user token new_token : Bytes) (issued_at now k : ℤ)
      → issue_refresh_token jwt auth issued_at user ≡ ok token
      → form (codes "refresh_token") ≡ token
      → IsSecondOf k (issued_at +ℤ auth.refresh_ttl)
      → pos 1_000_000_000 ≤ℤ auth.access_ttl
      → issue_access_token jwt auth now user ≡ ok new_token
      → ((now <ℤ seconds k)
          × (refresh (tokens_of jwt auth now) r ≡ write_json 200 (value (access new_token)))
          × (verify_access_token jwt auth now new_token ≡ ok user))
        ⊎ ((seconds k ≤ℤ now) × ((refresh (tokens_of jwt auth now) r).status ≡ 401))
  refresh_lem user token new_token issued_at now k made given last ahead issued =
      elim (refresh_token_lem jwt auth user token issued_at now k laws foreign_refresh made
        last).0 [
          | inl (live, valid) ↦ inl (
            live,
            refresh_accepted (tokens_of jwt auth now) r form token user new_token body given valid
                issued,
            issued_live jwt user auth.access_secret new_token now auth.access_ttl laws issued ahead,
          )
          | inr (over, (e, refused, kind)) ↦
              inr (over, refresh_denied (tokens_of jwt auth now) r form token e body given refused)
        ]

  -- An access token is not taken for a refresh token: the answer is 401. The two secrets and the
  -- JWT library are as for the tokens themselves.
  pub refresh_refused :
      (user token : Bytes) (issued_at now : ℤ)
      → issue_access_token jwt auth issued_at user ≡ ok token
      → form (codes "refresh_token") ≡ token
      → (refresh (tokens_of jwt auth now) r).status ≡ 401
  refresh_refused user token issued_at now made given =
      let date = jwt.new_numeric_date (issued_at +ℤ auth.access_ttl) in
      let last = laws.truncates (issued_at +ℤ auth.access_ttl) in
      let (e, refused, kind) =
        (access_token_lem jwt auth user token issued_at now date laws foreign made last).1 in
      refresh_denied (tokens_of jwt auth now) r form token e body given refused
