-- ===== src/Service/User.antt =====
-- `UserService` of internal/service/user.go.
pub mod Accounts
use feature_voting_system.Prelude.{
  Bool, true, ◌||◌, not, List, [], ◌∷◌, Bytes, codes, bytes_eq, if◌then◌else◌,
}
use feature_voting_system.Errors.{
  Sentinel, sentinel, Error, error_text, error_eq, prefixed, Result, Action, pure, raise_if,
  on_error, ◌>>=◌, ◌>>◌,
}
use feature_voting_system.Database.{Db, Pgx, Call}
use feature_voting_system.Postgres.Users
use feature_voting_system.Postgres.Users.{UserRecord}
use feature_voting_system.Service.Substring.{contains_any}

pub record UserRepo (S : Type 0) : Type 0 where
  pub create_user : Bytes → Bytes → Action S UserRecord
  pub get_user_by_email : Bytes → Action S UserRecord

-- What the service takes from `AuthService`; a hash is salted anew, or fails.
pub record Passwords : Type 0 where
  pub hash_password : Bytes → Result Bytes
  pub verify_password : Bytes → Bytes → Bool

abbrev pub duplicate_texts : List Bytes
duplicate_texts = codes "duplicate key" ∷ codes "unique constraint" ∷ codes "23505" ∷ []

-- `isDuplicateKeyError` of an error that is not nil.
pub is_duplicate_key_error : Error → Bool
unfolding error_text contains_any
is_duplicate_key_error e = contains_any (error_text e) duplicate_texts

abbrev create_error : Error → Error
create_error e =
    if is_duplicate_key_error e
    then sentinel Sentinel.conflict
    else prefixed (codes "create user: ") e

-- `err == pgx.ErrNoRows`
abbrev lookup_error : Error → Error
lookup_error e =
    if error_eq e Sentinel.no_rows
    then sentinel Sentinel.unauthorized
    else prefixed (codes "get user: ") e

module _ {S : Type 0} (repo : UserRepo S) (auth : Passwords) where
  unfoldable pub register : Bytes → Bytes → Action S UserRecord
  register email password = do
    hash ← on_error (prefixed (codes "hash password: ")) (λ s. (auth.hash_password password, s))
    user ← on_error create_error (repo.create_user email hash)
    pure user

  unfoldable pub login : Bytes → Bytes → Action S UserRecord
  login email password = do
    user ← on_error lookup_error (repo.get_user_by_email email)
    raise_if
        (bytes_eq user.password_hash (codes "")
          || not (auth.verify_password user.password_hash password))
        (sentinel Sentinel.unauthorized)
    pure user

-- cmd/server/main.go hands `pgRepo.NewUserRepo(pool)` to the service.
abbrev pub postgres_users : Pgx → Call → UserRepo Db
postgres_users pg c = record {
  create_user = Users.create_user pg c;
  get_user_by_email = Users.get_user_by_email pg c;
}
