-- ===== src/Tests/Accounts.antt =====
-- Accounts, passwords and tokens.
use feature_voting_system.Prelude.{
  ℕ, ℤ, suc, ◌++◌, ◌≡◌, ◌↔◌, ◌⊎◌, refl, true, false, some, Bytes, codes, pos, ◌+ℤ◌, ◌<ℤ◌, ◌≤ℤ◌,
  arith, bytes_eq, if◌then◌else◌,
}
use feature_voting_system.Errors.{ok}
use feature_voting_system.Http.{Request, HttpHandler, value, empty, write_json}
use feature_voting_system.Postgres.Users.{record_of, new_user, create_user, get_user_by_email}
use feature_voting_system.Postgres.Users.Repository
use feature_voting_system.Postgres.Users.Repository.{as_record, repositories_agree}
use feature_voting_system.Service.User.{postgres_users, duplicate_texts}
use feature_voting_system.Service.User
use feature_voting_system.Service.User.Accounts.{login-register}
use feature_voting_system.Service.Auth.{
  argon2_key_len, hash_password, verify_password, key_of, encode_hash, verify_access_token,
}
use feature_voting_system.Service.Auth.Hashing.{verify-hash_password}
use feature_voting_system.Service.Auth.Sessions.{seconds}
use feature_voting_system.Server.Sessions.{session_lem}
use feature_voting_system.Middleware.Auth as Middleware
use feature_voting_system.Handler.Auth
use feature_voting_system.Handler.Auth.{access, tokens_of}
use feature_voting_system.Handler.Auth.Login.{
  login_unknown_status, login_status, register_taken_status,
}
use feature_voting_system.Handler.Auth.Refresh.{refresh_lem}
use feature_voting_system.Tests.Data.{unary, pgx, call, db, vote_request, member}
use feature_voting_system.Tests.Crypto.{id_key, id_key-IdKeyLaws, passwords, passwords-PasswordLaws}
use feature_voting_system.Tests.Tokens.{jwt, jwt-JwtLaws, foreign, service, token_of}

login-register_example :
    let (registered, db') =
      User.register (postgres_users pgx call) passwords (codes "ann@a.org") (codes "secret") db in
    (registered ≡ ok (record_of pgx (new_user call (codes "ann@a.org") (codes "$secret"))))
    × (User.login (postgres_users pgx call) passwords (codes "ann@a.org") (codes "secret") db'
        ≡ (registered, db'))
login-register_example =
    login-register pgx call call passwords (codes "ann@a.org") (codes "secret") (codes "$secret") db
      passwords-PasswordLaws refl refl refl (unfold bytes_eq in refl) refl

repositories_agree_example :
    (as_record pgx (Repository.create_user pgx call (codes "ann@a.org") (codes "$x") db)
      ≡ create_user pgx call (codes "ann@a.org") (codes "$x") db)
    × (as_record pgx (Repository.get_user_by_email pgx call (codes "ann@a.org") db)
        ≡ get_user_by_email pgx call (codes "ann@a.org") db)
repositories_agree_example = repositories_agree pgx call (codes "ann@a.org") (codes "$x") db

-- A form with an email and the password "secret".
abbrev form : Bytes → Bytes → Bytes
form email name = if bytes_eq name (codes "email") then email else codes "secret"

abbrev posted : Bytes → Request
posted email = record (vote_request 1 10) { form = some (form email) }

-- 0.3 seconds after a whole second.
abbrev start : ℤ
start = pos 1_000_300_000_000

login_unknown_status_example :
    (Auth.login
      (postgres_users pgx call)
      passwords
      (tokens_of jwt service start)
      (posted (codes "bob@b.org"))
      db).0.status
    ≡ 500
login_unknown_status_example =
    login_unknown_status pgx call passwords (tokens_of jwt service start)
      (posted (codes "bob@b.org")) (form (codes "bob@b.org")) db refl refl (unfold bytes_eq in refl)

-- User 2 has no password.
login_status_example :
    let out =
      Auth.login
        (postgres_users pgx call)
        passwords
        (tokens_of jwt service start)
        (posted (unary 2))
        db in
    ((out.0.status ≡ 200) ↔ (
      (bytes_eq (codes "") (codes "") ≡ false)
      × (passwords.verify_password (codes "") (form (unary 2) (codes "password")) ≡ true)))
    × ((out.0.status ≡ 200) ⊎ (out.0.status ≡ 401))
    × (out.1 ≡ db)
login_status_example =
    login_status pgx call passwords (tokens_of jwt service start) (posted (unary 2))
      (form (unary 2)) db refl refl (member 2) (unfold bytes_eq in refl)

register_taken_status_example :
    let out =
      Auth.register
        (postgres_users pgx call)
        passwords
        (tokens_of jwt service start)
        (posted (unary 2))
        db in
    (out.0.status ≡ 409) × (out.1 ≡ db)
register_taken_status_example =
    register_taken_status pgx call passwords (tokens_of jwt service start) (posted (unary 2))
      (form (unary 2)) db refl refl (codes "$secret") (unfold bytes_eq in refl)
      (unfold bytes_eq in refl) (unfold bytes_eq in refl) (unfold bytes_eq in refl)

abbrev salt : Bytes
salt = codes "0123456789abcdef"

verify-hash_password_example :
    (verify_password id_key
        (encode_hash salt (key_of id_key (codes "secret") salt argon2_key_len))
        (codes "Secret")
      ≡ true)
    ↔ (key_of id_key (codes "Secret") salt argon2_key_len
        ≡ key_of id_key (codes "secret") salt argon2_key_len)
verify-hash_password_example =
    verify-hash_password id_key salt (codes "secret") (codes "Secret")
      (encode_hash salt (key_of id_key (codes "secret") salt argon2_key_len)) id_key-IdKeyLaws
      (ground arith) (unfold hash_password in refl)

abbrev access_token : Bytes
access_token = token_of (codes "access") start service.access_ttl (codes "u1")

abbrev refresh_token : Bytes
refresh_token = token_of (codes "refresh") start service.refresh_ttl (codes "u1")

abbrev refreshing : Bytes → Request
refreshing token = record (vote_request 1 10) { form = some (λ _. token) }

-- Half an hour later.
abbrev later : ℤ
later = pos 2_800_000_000_000

refresh_lem_example :
    let new_token = token_of (codes "access") later service.access_ttl (codes "u1") in
    ((later <ℤ seconds (pos 605_800))
      × (Auth.refresh (tokens_of jwt service later) (refreshing refresh_token)
          ≡ write_json 200 (value (access new_token)))
      × (verify_access_token jwt service later new_token ≡ ok (codes "u1")))
    ⊎ ((seconds (pos 605_800) ≤ℤ later)
        × ((Auth.refresh (tokens_of jwt service later) (refreshing refresh_token)).status ≡ 401))
refresh_lem_example =
    refresh_lem jwt service jwt-JwtLaws
      (foreign (codes "access") (codes "refresh") (unfold bytes_eq in refl))
      (foreign (codes "refresh") (codes "access") (unfold bytes_eq in refl))
      (refreshing refresh_token) (λ _. refresh_token) refl (codes "u1") refresh_token
      (token_of (codes "access") later service.access_ttl (codes "u1")) start later (pos 605_800)
      refl refl (unfold ◌+ℤ◌ in (omega arith, omega arith)) (omega arith) refl

abbrev bearing : Bytes → Request
bearing token = record (vote_request 1 10) { header = λ _. codes "Bearer " ++ token }

abbrev counting : HttpHandler ℕ Bytes
counting r n = (write_json 200 empty, suc n)

session_lem_example :
    let check = Middleware.auth (verify_access_token jwt service later) counting in
    let by_access = bearing access_token in
    (((later <ℤ seconds (pos 1_900))
        × (check by_access 0 ≡ counting (record by_access { context_user = some (codes "u1") }) 0))
      ⊎ ((seconds (pos 1_900) ≤ℤ later)
          × ((check by_access 0).0.status ≡ 401)
          × ((check by_access 0).1 ≡ 0)))
    × (((check (bearing refresh_token) 0).0.status ≡ 401)
        × ((check (bearing refresh_token) 0).1 ≡ 0))
    × ((Auth.refresh (tokens_of jwt service later) (refreshing access_token)).status ≡ 401)
session_lem_example =
    session_lem jwt service jwt-JwtLaws
      (foreign (codes "access") (codes "refresh") (unfold bytes_eq in refl))
      (foreign (codes "refresh") (codes "access") (unfold bytes_eq in refl)) (codes "u1")
      access_token refresh_token start refl refl counting (bearing access_token)
      (bearing refresh_token) (refreshing access_token) 0 (codes "Bearer") (codes "Bearer")
      (λ _. access_token) later (pos 1_900) (unfold ◌+ℤ◌ in (omega arith, omega arith))
      (refl, unfold bytes_eq in refl, ground arith) (refl, unfold bytes_eq in refl, ground arith)
      refl refl
