-- ===== src/Handler/Auth/Login.antt =====
-- The status codes of registration, login and refresh over the PostgreSQL repository.
use feature_voting_system.Prelude.{
  ◌≡◌, ◌↔◌, ◌⊎◌, inl, inr, true, false, some, none, Bytes, codes, arith, bytes_eq, Bool-cases,
}
use feature_voting_system.Errors.{ok}
use feature_voting_system.Http.{Request}
use feature_voting_system.Database.{UserRow, Db, Pgx, Call}
use feature_voting_system.Postgres.Users.{find_email, has_email, record_of}
use feature_voting_system.Service.User.{Passwords, postgres_users}
use feature_voting_system.Service.User.Accounts.{
  register_taken, login_unknown, login_found, login_refused,
}
use feature_voting_system.Handler.Auth.{Tokens, register, login}

module _ (pg : Pgx) (c : Call) (auth : Passwords) (tokens : Tokens) (r : Request)
    (form : Bytes → Bytes) (db : Db) (sound : c.query_error ≡ none)
    (decoded : r.form ≡ some form) where
  -- A login with a JSON body and an email without an account is answered by 500, not by 401,
  -- where the driver does not fail.
  pub login_unknown_status :
      find_email pg (form (codes "email")) db.users ≡ none
      → (login (postgres_users pg c) auth tokens r db).0.status ≡ 500
  unfolding login
  login_unknown_status missing =
      let (e, failed, not_unauthorized, _) =
        login_unknown pg c auth (form (codes "email")) (form (codes "password")) db sound missing in
      ground (arith, failed, not_unauthorized)

  -- For an email that has an account, a login with a JSON body is answered by 200 exactly when a
  -- password is stored and the given one verifies against it, and by 401 otherwise; nothing is
  -- written. The driver does not fail.
  pub login_status :
      (u : UserRow)
      → find_email pg (form (codes "email")) db.users ≡ some u
      → let out = login (postgres_users pg c) auth tokens r db in
        let hash = (record_of pg u).password_hash in
        ((out.0.status ≡ 200) ↔ (
          (bytes_eq hash (codes "") ≡ false)
          × (auth.verify_password hash (form (codes "password")) ≡ true)))
        × ((out.0.status ≡ 200) ⊎ (out.0.status ≡ 401))
        × (out.1 ≡ db)
  unfolding login
  login_status u found =
      let email = form (codes "email") in
      let password = form (codes "password") in
      elim (Bool-cases (bytes_eq (record_of pg u).password_hash (codes ""))) [
        | inl empty ↦
            ground (arith, login_refused pg c auth email password db sound u found (inl empty))
        | inr stored ↦
            elim (Bool-cases (auth.verify_password (record_of pg u).password_hash password)) [
              | inl right ↦
                  ground (arith, login_found pg c auth email password db sound u found stored right)
              | inr wrong ↦
                  ground
                    (arith, login_refused pg c auth email password db sound u found (inr wrong))
            ]
      ]

  -- To register an email that has an account, up to the letters' case, with a password that is
  -- not empty and can be hashed, is answered by 409, and writes nothing. The driver does not
  -- fail.
  pub register_taken_status :
      (hash : Bytes)
      → bytes_eq (form (codes "email")) (codes "") ≡ false
      → bytes_eq (form (codes "password")) (codes "") ≡ false
      → auth.hash_password (form (codes "password")) ≡ ok hash
      → has_email pg (form (codes "email")) db.users ≡ true
      → let out = register (postgres_users pg c) auth tokens r db in
        (out.0.status ≡ 409) × (out.1 ≡ db)
  unfolding register
  register_taken_status hash email password hashed taken = ground (
    arith,
    register_taken pg c auth (form (codes "email")) (form (codes "password")) db sound hash hashed
        taken,
  )
