-- ===== src/Handler/Auth.antt =====
-- `AuthHandler` of internal/handler/auth.go.
pub mod Login
pub mod Writes
pub mod Refresh
use feature_voting_system.Prelude.{Bool, ℤ, ◌||◌, none, some, Bytes, codes, bytes_eq, if◌then◌else◌}
use feature_voting_system.Errors.{Sentinel, Error, error_is, Result, ok, err}
use feature_voting_system.Http.{Request, Response, Body, value, write_json, write_error}
use feature_voting_system.Postgres.Users.{UserRecord}
use feature_voting_system.Service.Auth.{
  Jwt, AuthService, issue_access_token, issue_refresh_token, verify_refresh_token,
}
use feature_voting_system.Service.User
use feature_voting_system.Service.User.{UserRepo, Passwords}

-- What the handlers take from `AuthService` besides passwords.
pub record Tokens : Type 0 where
  pub issue_access_token : Bytes → Result Bytes
  pub issue_refresh_token : Bytes → Result Bytes
  -- the user of a refresh token that is valid
  pub verify_refresh_token : Bytes → Result Bytes

abbrev pub tokens_of : Jwt → AuthService → ℤ → Tokens
tokens_of jwt auth now = record {
  issue_access_token = issue_access_token jwt auth now;
  issue_refresh_token = issue_refresh_token jwt auth now;
  verify_refresh_token = verify_refresh_token jwt auth now;
}

-- `authResponse`, and the answer to a refresh.
pub data AuthBody : Type 0 where
  both : Bytes → Bytes → AuthBody
  access : Bytes → AuthBody

abbrev pub AuthAnswer : Type 0
AuthAnswer = Response (Body AuthBody)

abbrev invalid_json : AuthAnswer
invalid_json = write_error 400 (codes "invalid_request") (codes "invalid JSON body")

abbrev no_token : AuthAnswer
no_token = write_error 500 (codes "internal_error") (codes "token issuance failed")

abbrev register_error : Error → AuthAnswer
register_error e =
    if error_is e Sentinel.conflict
    then write_error 409 (codes "email_taken") (codes "email already registered")
    else write_error 500 (codes "internal_error") (codes "registration failed")

abbrev login_error : Error → AuthAnswer
login_error e =
    if error_is e Sentinel.unauthorized
    then write_error 401 (codes "invalid_credentials") (codes "email or password incorrect")
    else write_error 500 (codes "internal_error") (codes "login failed")

-- `accessToken, _ := …`: without the token where there is an error.
abbrev token_or_empty : Result Bytes → Bytes
token_or_empty (ok t) = t
token_or_empty (err e) = codes ""

module _ (tokens : Tokens) where
  abbrev issue_both : UserRecord → AuthAnswer
  issue_both user = elim (tokens.issue_access_token user.id) [
    | err e ↦ no_token
    | ok a ↦ elim (tokens.issue_refresh_token user.id) [
      | err e ↦ no_token
      | ok r ↦ write_json 201 (value (both a r))
    ]
  ]

  abbrev issue_quietly : UserRecord → AuthAnswer
  issue_quietly user = write_json 200 (
      value (
        both (token_or_empty (tokens.issue_access_token user.id))
          (token_or_empty (tokens.issue_refresh_token user.id))))

  abbrev registered : {S : Type 0} → Result UserRecord × S → AuthAnswer × S
  registered (ok user, s) = (issue_both user, s)
  registered (err e, s) = (register_error e, s)

  abbrev logged_in : {S : Type 0} → Result UserRecord × S → AuthAnswer × S
  logged_in (ok user, s) = (issue_quietly user, s)
  logged_in (err e, s) = (login_error e, s)

  abbrev refreshed : Result Bytes → AuthAnswer
  refreshed (err e) =
      write_error 401 (codes "invalid_token") (codes "refresh token invalid or expired")
  refreshed (ok user) = elim (tokens.issue_access_token user) [
    | err e ↦ no_token
    | ok a ↦ write_json 200 (value (access a))
  ]

  pub refresh : Request → AuthAnswer
  refresh r = elim r.form [
    | none ↦ invalid_json
    | some f ↦ refreshed (tokens.verify_refresh_token (f (codes "refresh_token")))
  ]

module _ {S : Type 0} (repo : UserRepo S) (auth : Passwords) (tokens : Tokens) where
  abbrev register_form : Bytes → Bytes → S → AuthAnswer × S
  register_form email password s =
      if bytes_eq email (codes "") || bytes_eq password (codes "")
      then (
        write_error 400 (codes "validation_failed") (codes "email and password are required"),
        s,
      )
      else registered tokens (User.register repo auth email password s)

  pub register : Request → S → AuthAnswer × S
  register r s = elim r.form [
    | none ↦ (invalid_json, s)
    | some f ↦ register_form (f (codes "email")) (f (codes "password")) s
  ]

  pub login : Request → S → AuthAnswer × S
  login r s = elim r.form [
    | none ↦ (invalid_json, s)
    | some f ↦ logged_in tokens (User.login repo auth (f (codes "email")) (f (codes "password")) s)
  ]
