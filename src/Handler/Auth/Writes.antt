-- ===== src/Handler/Auth/Writes.antt =====
-- What the authentication handlers write.
use feature_voting_system.Prelude.{
  ◌≡◌, refl, ◌∙◌, ◌⊎◌, inl, inr, ◌||◌, Bytes, codes, arith, bytes_eq, Bool-cases, Option-cases, not,
}
use feature_voting_system.Errors.{Result, ok, err, Result-cases}
use feature_voting_system.Http.{Request}
use feature_voting_system.Postgres.Users.{UserRecord}
use feature_voting_system.Service.User
use feature_voting_system.Service.User.{UserRepo, Passwords}
use feature_voting_system.Handler.Auth.{Tokens, registered, logged_in, register, login}

module _ {S : Type 0} (repo : UserRepo S) (auth : Passwords) (tokens : Tokens) where
  registered-state : (out : Result UserRecord × S) → (registered tokens out).1 ≡ out.1
  registered-state (ok user, s) = refl
  registered-state (err e, s) = refl

  logged_in-state : (out : Result UserRecord × S) → (logged_in tokens out).1 ≡ out.1
  logged_in-state (ok user, s) = refl
  logged_in-state (err e, s) = refl

  service_register-writes :
      (email password : Bytes) (s : S)
      → ((User.register repo auth email password s).1 ≡ s)
        ⊎ ((hash : Bytes) × ((User.register repo auth email password s).1
              ≡ (repo.create_user email hash s).1))
  unfolding User.register
  service_register-writes email password s = elim (Result-cases (auth.hash_password password)) [
    | inr (e, unhashed) ↦ inl (ground (arith, unhashed))
    | inl (hash, hashed) ↦ elim (Result-cases (repo.create_user email hash s).0) [
      | inl (u, made) ↦ inr (hash, ground (arith, hashed, made))
      | inr (e, refused) ↦ inr (hash, ground (arith, hashed, refused))
    ]
  ]

  -- Nothing, or one call of `CreateUser`.
  pub register-writes :
      (r : Request) (s : S)
      → ((register repo auth tokens r s).1 ≡ s)
        ⊎ ((email hash : Bytes) × ((register repo auth tokens r s).1
              ≡ (repo.create_user email hash s).1))
  unfolding register
  register-writes r s = elim (Option-cases r.form) [
    | inl unread ↦ inl (ground (arith, unread))
    | inr (f, read) ↦
        let email = f (codes "email") in
        let password = f (codes "password") in
        elim (Bool-cases (bytes_eq email (codes "") || bytes_eq password (codes ""))) [
          | inl empty ↦ inl (ground (arith, read, empty))
          | inr full ↦
              let served : (register repo auth tokens r s).1
                  ≡ (User.register repo auth email password s).1 =
                rw (read, full) (registered-state (User.register repo auth email password s)) in
              elim (service_register-writes email password s) [
                | inl same ↦ inl (served ∙ same)
                | inr (hash, wrote) ↦ inr (email, hash, served ∙ wrote)
              ]
        ]
  ]

  service_login-pure :
      (email password : Bytes) (s : S)
      → (repo.get_user_by_email email s).1 ≡ s
      → (User.login repo auth email password s).1 ≡ s
  unfolding User.login
  service_login-pure email password s pure =
      elim (Result-cases (repo.get_user_by_email email s).0) [
        | inr (e, missing) ↦ ground (arith, missing, pure)
        | inl (u, found) ↦
            elim (Bool-cases (
              bytes_eq u.password_hash (codes "")
              || not (auth.verify_password u.password_hash password))) [
                | inl refused ↦ ground (arith, found, pure, refused)
                | inr right ↦ ground (arith, found, pure, right)
              ]
      ]

  -- A login writes nothing where the query for the email writes nothing.
  pub login-pure :
      (r : Request) (s : S)
      → ((email : Bytes) → (repo.get_user_by_email email s).1 ≡ s)
      → (login repo auth tokens r s).1 ≡ s
  unfolding login
  login-pure r s pure = elim (Option-cases r.form) [
    | inl unread ↦ ground (arith, unread)
    | inr (f, read) ↦
        let email = f (codes "email") in
        let password = f (codes "password") in
        rw read (
          logged_in-state (User.login repo auth email password s)
          ∙ service_login-pure email password s (pure email))
  ]
