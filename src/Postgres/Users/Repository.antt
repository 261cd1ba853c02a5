-- ===== src/Postgres/Users/Repository.antt =====
-- `UserRepository` of internal/repository/postgres/users.go, beside `UserRepo`.
use mathlib.Core.Path.{subst}
use feature_voting_system.Prelude.{
  ℕ, ◌≡◌, ◌||◌, refl, sym, false, inl, inr, List, [], ◌∷◌, Option, none, some, Bytes, codes, arith,
  Bool-cases, Option-cases, ◌==◌, ==_refl, bytes_eq_refl, if◌then◌else◌,
}
use feature_voting_system.Errors.{Sentinel, sentinel, plain, prefixed, Result, ok, err, Action}
use feature_voting_system.Database.{UserRow, Db, Pgx, Call}
use feature_voting_system.Database.Driver.{unique_violation}
use feature_voting_system.Database.Tables.{has_user}
use feature_voting_system.Postgres.Users
use feature_voting_system.Postgres.Users.{
  UserRecord, record_of, find_email, has_email, new_user, insert_user,
}

-- `scanUser`: the row that a query gives, or its error.
abbrev pub scan_user : Result UserRow → Result UserRow
scan_user (err e) = err e
scan_user (ok u) = ok u

-- `QueryRow` of a SELECT on the users.
abbrev pub query_user : Call → Option UserRow → Db → Result UserRow × Db
query_user c found db = elim c.query_error [
  | some m ↦ (err (plain m), db)
  | none ↦ elim found [ none ↦ (err (sentinel Sentinel.no_rows), db) | some u ↦ (ok u, db) ]
]

-- `createUserSQL`
abbrev pub insert_user_row : Pgx → Call → Bytes → Bytes → Action Db UserRow
insert_user_row pg c email hash db = elim c.query_error [
  | some m ↦ (err (plain m), db)
  | none ↦ elim (insert_user pg c email hash db) [
    | none ↦ (err (plain (unique_violation pg)), db)
    | some u ↦ (ok u, record db { users = u ∷ db.users })
  ]
]

-- `getUserByIDSQL`; an invalid UUID stands for NULL, which no id equals.
abbrev pub find_id : Option ℕ → List UserRow → Option UserRow
find_id none us = none
find_id (some i) [] = none
find_id (some i) (u ∷ us) = if i == u.id then some u else find_id (some i) us

pub create_user : Pgx → Call → Bytes → Bytes → Action Db UserRow
create_user pg c email hash db =
    let (row, db') = insert_user_row pg c email hash db in
    elim (scan_user row) [
      | err e ↦ (err (prefixed (codes "create user: ") e), db')
      | ok user ↦ (ok user, db')
    ]

pub get_user_by_email : Pgx → Call → Bytes → Action Db UserRow
get_user_by_email pg c email db =
    let (row, db') = query_user c (find_email pg email db.users) db in
    elim (scan_user row) [
      | err e ↦ (err (prefixed (codes "get user by email: ") e), db')
      | ok user ↦ (ok user, db')
    ]

pub get_user_by_id : Call → Option ℕ → Action Db UserRow
get_user_by_id c id db =
    let (row, db') = query_user c (find_id id db.users) db in
    elim (scan_user row) [
      | err e ↦ (err (prefixed (codes "get user by id: ") e), db')
      | ok user ↦ (ok user, db')
    ]

-- The record that `UserRepo` makes of a user.
abbrev pub as_record : Pgx → Result UserRow × Db → Result UserRecord × Db
as_record pg (err e, db) = (err e, db)
as_record pg (ok u, db) = (ok (record_of pg u), db)

module _ (pg : Pgx) (c : Call) (email hash : Bytes) (db : Db) where
  create_user-as_record :
      as_record pg (create_user pg c email hash db) ≡ Users.create_user pg c email hash db
  unfolding create_user Users.create_user
  create_user-as_record = elim (Option-cases c.query_error) [
    | inr (m, failed) ↦ ground (arith, failed)
    | inl sound ↦ elim (Bool-cases (has_email pg email db.users || has_user c.new_id db.users)) [
      | inl taken ↦ ground (arith, sound, taken)
      | inr fresh ↦ ground (arith, sound, fresh)
    ]
  ]

  get_user_by_email-as_record :
      as_record pg (get_user_by_email pg c email db) ≡ Users.get_user_by_email pg c email db
  unfolding get_user_by_email Users.get_user_by_email
  get_user_by_email-as_record = elim (Option-cases c.query_error) [
    | inr (m, failed) ↦ ground (arith, failed)
    | inl sound ↦ elim (Option-cases (find_email pg email db.users)) [
      | inl missing ↦ ground (arith, sound, missing)
      | inr (u, there) ↦ ground (arith, sound, there)
    ]
  ]

  -- The two repositories of users are one: from the same tables and with the same driver their
  -- `CreateUser` and `GetUserByEmail` leave the same tables and give the same user, or the same
  -- error, up to the record that `UserRepo` makes of a row.
  pub repositories_agree :
      (as_record pg (create_user pg c email hash db) ≡ Users.create_user pg c email hash db)
      × (as_record pg (get_user_by_email pg c email db) ≡ Users.get_user_by_email pg c email db)
  repositories_agree = (create_user-as_record, get_user_by_email-as_record)

  -- A user that was created is read by its id and by its email; the calls of the driver do not
  -- fail, and neither the email nor the id was taken.
  pub get_user-create_user :
      (read : Call)
      → c.query_error ≡ none
      → read.query_error ≡ none
      → has_email pg email db.users ≡ false
      → has_user c.new_id db.users ≡ false
      → let (out, db') = create_user pg c email hash db in
        (out ≡ ok (new_user c email hash))
        × (get_user_by_id read (some c.new_id) db' ≡ (ok (new_user c email hash), db'))
        × (get_user_by_email pg read email db' ≡ (ok (new_user c email hash), db'))
  unfolding create_user get_user_by_id get_user_by_email
  get_user-create_user read sound read_sound fresh new =
      let created : create_user pg c email hash db
          ≡ (ok (new_user c email hash), record db { users = new_user c email hash ∷ db.users }) =
        ground (arith, sound, fresh, new) in
      subst
        (λ (o : Result UserRow × Db).
          (o.0 ≡ ok (new_user c email hash))
          × (get_user_by_id read (some c.new_id) o.1 ≡ (ok (new_user c email hash), o.1))
          × (get_user_by_email pg read email o.1 ≡ (ok (new_user c email hash), o.1)))
        (sym created)
        (
          refl,
          ground (arith, read_sound, ==_refl c.new_id),
          ground (arith, read_sound, bytes_eq_refl (pg.citext_fold email)),
        )
