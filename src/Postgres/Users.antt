-- ===== src/Postgres/Users.antt =====
-- `UserRepo` of internal/repository/postgres/user_repo.go, and the users table under it.
pub mod Emails
pub mod Repository
use feature_voting_system.Prelude.{
  ℕ, Bool, false, ◌||◌, List, [], ◌∷◌, Option, none, some, Bytes, codes, ℤ, bytes_eq, if◌then◌else◌,
}
use feature_voting_system.Errors.{Sentinel, sentinel, plain, prefixed, Result, ok, err, Action}
use feature_voting_system.Database.{UserRow, Db, Pgx, Call}
use feature_voting_system.Database.Driver.{unique_violation}
use feature_voting_system.Database.Tables.{has_user}

-- `service.UserRecord`
pub record UserRecord : Type 0 where
  pub id : Bytes
  pub email : Bytes
  pub password_hash : Bytes

-- `derefStr`
abbrev pub deref_str : Option Bytes → Bytes
deref_str none = codes ""
deref_str (some s) = s

abbrev pub same_email : Pgx → Bytes → UserRow → Bool
same_email pg email u = bytes_eq (pg.citext_fold email) (pg.citext_fold u.email)

-- `WHERE email = $1` on a CITEXT column.
abbrev pub find_email : Pgx → Bytes → List UserRow → Option UserRow
find_email pg email [] = none
find_email pg email (u ∷ us) = if same_email pg email u then some u else find_email pg email us

abbrev pub has_email : Pgx → Bytes → List UserRow → Bool
has_email pg email [] = false
has_email pg email (u ∷ us) = same_email pg email u || has_email pg email us

abbrev pub record_of : Pgx → UserRow → UserRecord
record_of pg u = record {
  id = pg.uuid_text u.id;
  email = u.email;
  password_hash = deref_str u.password_hash;
}

abbrev pub new_user : Call → Bytes → Bytes → UserRow
new_user c email hash = record {
  id = c.new_id;
  email = email;
  password_hash = some hash;
  created_at = c.now;
}

-- `INSERT INTO users (email, password_hash) VALUES ($1, $2) RETURNING …`: the row, unless the
-- email or the generated id is taken.
abbrev pub insert_user : Pgx → Call → Bytes → Bytes → Db → Option UserRow
insert_user pg c email hash db =
    if has_email pg email db.users || has_user c.new_id db.users
    then none
    else some (new_user c email hash)

abbrev scan_user : Pgx → Db → Option UserRow → Result UserRecord × Db
scan_user pg db none = (err (prefixed (codes "create user: ") (plain (unique_violation pg))), db)
scan_user pg db (some u) = (ok (record_of pg u), record db { users = u ∷ db.users })

pub create_user : Pgx → Call → Bytes → Bytes → Action Db UserRecord
create_user pg c email hash db = elim c.query_error [
  | some m ↦ (err (prefixed (codes "create user: ") (plain m)), db)
  | none ↦ scan_user pg db (insert_user pg c email hash db)
]

abbrev found_user : Pgx → Option UserRow → Result UserRecord
found_user pg none = err (prefixed (codes "get user by email: ") (sentinel Sentinel.no_rows))
found_user pg (some u) = ok (record_of pg u)

pub get_user_by_email : Pgx → Call → Bytes → Action Db UserRecord
get_user_by_email pg c email db = elim c.query_error [
  | some m ↦ (err (prefixed (codes "get user by email: ") (plain m)), db)
  | none ↦ (found_user pg (find_email pg email db.users), db)
]
