-- ===== src/Server/Sessions.antt =====
-- The two tokens of a session at the check of the routes and at the refresh.
use feature_voting_system.Prelude.{◌≡◌, ◌⊎◌, inl, inr, some, Bytes, codes, ℤ, ◌+ℤ◌, ◌<ℤ◌, ◌≤ℤ◌}
use feature_voting_system.Errors.{ok}
use feature_voting_system.Http.{Request, HttpHandler}
use feature_voting_system.Middleware.Auth
use feature_voting_system.Middleware.Auth.Gate.{Bears, auth_passes, auth_refuses}
use feature_voting_system.Service.Auth.{
  Jwt, AuthService, issue_access_token, issue_refresh_token, verify_access_token,
}
use feature_voting_system.Service.Auth.Sessions.{
  JwtLaws, IsForeign, IsSecondOf, seconds, access_token_lem, refresh_token_lem,
}
use feature_voting_system.Handler.Auth.{tokens_of, refresh}
use feature_voting_system.Handler.Auth.Refresh.{refresh_refused}

module _ (jwt : Jwt) (service : AuthService) (laws : JwtLaws jwt)
    (foreign_access : IsForeign jwt service.access_secret service.refresh_secret)
    (foreign_refresh : IsForeign jwt service.refresh_secret service.access_secret)
    (user access_token refresh_token : Bytes) (issued_at : ℤ)
    (access_made : issue_access_token jwt service issued_at user ≡ ok access_token)
    (refresh_made : issue_refresh_token jwt service issued_at user ≡ ok refresh_token) where
  -- Of the two tokens of a session, the check of the protected routes lets the access token through
  -- as its user before the last whole second of its time, and answers 401 from then on; it answers
  -- 401 to the refresh token at any time, and so does the refresh to the access token. The handler
  -- behind the check does not run then. The JWT library truncates times to seconds, accepts what
  -- was signed under the same key until it expires and refuses it then, and what is signed with one
  -- secret does not pass under the other.
  pub session_lem :
      {S B : Type 0} (next : HttpHandler S B) (by_access by_refresh refreshing : Request) (s : S)
      (scheme scheme' : Bytes) (form : Bytes → Bytes) (now k : ℤ)
      → IsSecondOf k (issued_at +ℤ service.access_ttl)
      → Bears by_access scheme access_token
      → Bears by_refresh scheme' refresh_token
      → refreshing.form ≡ some form
      → form (codes "refresh_token") ≡ access_token
      → let check = Auth.auth (verify_access_token jwt service now) next in
        (((now <ℤ seconds k)
            × (check by_access s ≡ next (record by_access { context_user = some user }) s))
          ⊎ ((seconds k ≤ℤ now)
              × ((check by_access s).0.status ≡ 401)
              × ((check by_access s).1 ≡ s)))
        × (((check by_refresh s).0.status ≡ 401) × ((check by_refresh s).1 ≡ s))
        × ((refresh (tokens_of jwt service now) refreshing).status ≡ 401)
  session_lem next by_access by_refresh refreshing s scheme scheme' form now k last bears bears'
        body given =
      let verify = verify_access_token jwt service now in
      let date = jwt.new_numeric_date (issued_at +ℤ service.refresh_ttl) in
      let (e, foreign, _) =
        (refresh_token_lem jwt service user refresh_token issued_at now date laws foreign_refresh
          refresh_made (laws.truncates (issued_at +ℤ service.refresh_ttl))).1 in
      (
        elim (access_token_lem jwt service user access_token issued_at now k laws foreign_access
            access_made last).0 [
              | inl (live, valid) ↦
                  inl
                    (live, auth_passes verify next by_access s scheme access_token user bears valid)
              | inr (over, (e', refused, _)) ↦ inr (
                over,
                (auth_refuses verify next by_access s scheme access_token e' bears refused).0,
                (auth_refuses verify next by_access s scheme access_token e' bears refused).1,
              )
            ],
        auth_refuses verify next by_refresh s scheme' refresh_token e bears' foreign,
        refresh_refused jwt service laws foreign_access foreign_refresh refreshing form body user
            access_token issued_at now access_made given,
      )
