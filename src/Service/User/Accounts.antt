-- ===== src/Service/User/Accounts.antt =====
-- Registration and login over the PostgreSQL repository.
use feature_voting_system.Prelude.{
  ◌≡◌, refl, ◌⊎◌, inl, inr, true, false, ◌∷◌, ◌++◌, some, none, Bytes, codes, arith, bytes_eq,
  bytes_eq_refl, ap,
}
use mathlib.Core.List.{append-nil}
use feature_voting_system.Errors.{
  Sentinel, sentinel, Error, error_text, error_is, plain, prefixed, ok, err,
}
use feature_voting_system.Database.{UserRow, Db, Pgx, Call}
use feature_voting_system.Database.Driver.{unique_violation}
use feature_voting_system.Database.Tables.{has_user}
use feature_voting_system.Postgres.Users.{find_email, has_email, record_of, new_user}
use feature_voting_system.Postgres.Users.Emails.{
  create_user_new, create_user_taken, get_user_by_email_lem, get_user_by_email_missing,
}
use feature_voting_system.Service.Substring.{contains_any_iff}
use feature_voting_system.Service.User.{
  Passwords, duplicate_texts, is_duplicate_key_error, postgres_users, register, login,
}

-- A hash verifies the password that it was made of, and is not empty.
pub record PasswordLaws (auth : Passwords) : Type 0 where
  pub verifies :
      (password hash : Bytes)
      → auth.hash_password password ≡ ok hash
      → auth.verify_password hash password ≡ true
  pub not_empty :
      (password hash : Bytes)
      → auth.hash_password password ≡ ok hash
      → bytes_eq hash (codes "") ≡ false

-- A unique violation is recognised by its SQLSTATE in the text, whatever else the text says.
pub unique_violation_found :
    (pg : Pgx)
    → is_duplicate_key_error (prefixed (codes "create user: ") (plain (unique_violation pg))) ≡ true
unfolding is_duplicate_key_error
unique_violation_found pg =
    (contains_any_iff (error_text (prefixed (codes "create user: ") (plain (unique_violation pg))))
        duplicate_texts).1
      (inr (
        inr (
          inl (
            codes "create user: " ++ pg.unique_violation_head,
            pg.unique_violation_tail,
            ap (λ t. codes "create user: " ++ t) (append-nil (unique_violation pg)),
          ))))

module _ (pg : Pgx) (c : Call) (auth : Passwords) (email password : Bytes) (db : Db)
    (sound : c.query_error ≡ none) where
  -- To register an email that has an account is a conflict, and writes nothing.
  pub register_taken :
      (hash : Bytes)
      → auth.hash_password password ≡ ok hash
      → has_email pg email db.users ≡ true
      → register (postgres_users pg c) auth email password db
        ≡ (err (sentinel Sentinel.conflict), db)
  unfolding register
  register_taken hash hashed taken =
      ground (arith, create_user_taken pg c email hash db sound taken, unique_violation_found pg)

  -- The login of an email that has no account fails, and not as unauthorized: the repository has
  -- wrapped pgx.ErrNoRows, so the comparison by `==` misses it.
  pub login_unknown :
      find_email pg email db.users ≡ none
      → (e : Error) × (login (postgres_users pg c) auth email password db ≡ (err e, db))
        × (error_is e Sentinel.unauthorized ≡ false)
        × (error_is e Sentinel.no_rows ≡ true)
  unfolding login
  login_unknown missing = (
    prefixed (codes "get user: ")
        (prefixed (codes "get user by email: ") (sentinel Sentinel.no_rows)),
    ground (arith, get_user_by_email_missing pg c email db sound missing),
    refl,
    refl,
  )

  pub login_found :
      (u : UserRow)
      → find_email pg email db.users ≡ some u
      → bytes_eq (record_of pg u).password_hash (codes "") ≡ false
      → auth.verify_password (record_of pg u).password_hash password ≡ true
      → login (postgres_users pg c) auth email password db ≡ (ok (record_of pg u), db)
  unfolding login
  login_found u found not_empty verified =
      ground (arith, get_user_by_email_lem pg c email db u sound found)

  pub login_refused :
      (u : UserRow)
      → find_email pg email db.users ≡ some u
      → (bytes_eq (record_of pg u).password_hash (codes "") ≡ true)
        ⊎ (auth.verify_password (record_of pg u).password_hash password ≡ false)
      → login (postgres_users pg c) auth email password db
        ≡ (err (sentinel Sentinel.unauthorized), db)
  unfolding login
  login_refused u found wrong = ground (arith, get_user_by_email_lem pg c email db u sound found)

-- Whoever registers an email that has no account can log in with the same email and password, and
-- is the same user. The driver does not fail, hashing succeeds and verifies what it hashed, and
-- the generated id is new.
pub login-register :
    (pg : Pgx) (c d : Call) (auth : Passwords) (email password hash : Bytes) (db : Db)
    → PasswordLaws auth
    → c.query_error ≡ none
    → d.query_error ≡ none
    → auth.hash_password password ≡ ok hash
    → has_email pg email db.users ≡ false
    → has_user c.new_id db.users ≡ false
    → let (registered, db') = register (postgres_users pg c) auth email password db in
      (registered ≡ ok (record_of pg (new_user c email hash)))
      × (login (postgres_users pg d) auth email password db' ≡ (registered, db'))
unfolding register
login-register pg c d auth email password hash db laws sound_c sound_d hashed fresh id =
    let db' = record db { users = new_user c email hash ∷ db.users } in
    let created = create_user_new pg c email hash db sound_c fresh id in
    let entered =
      login_found pg d auth email password db' sound_d (new_user c email hash)
        (ground (arith, bytes_eq_refl (pg.citext_fold email))) (laws.not_empty password hash hashed)
        (laws.verifies password hash hashed) in
    ground (arith, created, entered)
