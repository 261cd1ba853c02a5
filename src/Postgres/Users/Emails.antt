-- ===== src/Postgres/Users/Emails.antt =====
-- One account to an email, and what the two methods return.
use feature_voting_system.Prelude.{
  ◌≡◌, ◌⊎◌, ◌||◌, inl, inr, Bool-cases, Option-cases, refl, true, false, List, [], ◌∷◌, none, some,
  Bytes, codes, arith, sym, All, All-map,
}
use mathlib.Core.Path.{subst}
use feature_voting_system.Errors.{Sentinel, sentinel, plain, prefixed, ok, err}
use feature_voting_system.Database.{UserRow, Db, Pgx, Call}
use feature_voting_system.Database.Driver.{unique_violation}
use feature_voting_system.Database.Tables.{has_user}
use feature_voting_system.Postgres.Users.{
  find_email, has_email, record_of, new_user, create_user, get_user_by_email,
}

-- `UNIQUE NOT NULL` on the email, up to the letters' case.
abbrev pub HasUniqueEmails : Pgx → List UserRow → Type 0
HasUniqueEmails pg [] = Unit
HasUniqueEmails pg (u ∷ us) = (has_email pg u.email us ≡ false) × HasUniqueEmails pg us

-- Where no two accounts have one email, up to the letters' case, no two have after `CreateUser`
-- either, whatever was registered and however the driver behaved.
pub create_user-HasUniqueEmails :
    (pg : Pgx) (c : Call) (email hash : Bytes) (db : Db)
    → HasUniqueEmails pg db.users
    → HasUniqueEmails pg (create_user pg c email hash db).1.users
unfolding create_user
create_user-HasUniqueEmails pg c email hash db h = ground arith

abbrev pub HasUniqueUserIds : List UserRow → Type 0
HasUniqueUserIds [] = Unit
HasUniqueUserIds (u ∷ us) = (has_user u.id us ≡ false) × HasUniqueUserIds us

create_user-HasUniqueUserIds :
    (pg : Pgx) (c : Call) (email hash : Bytes) (db : Db)
    → HasUniqueUserIds db.users
    → HasUniqueUserIds (create_user pg c email hash db).1.users
unfolding create_user
create_user-HasUniqueUserIds pg c email hash db h = ground arith

-- Every request is of a user.
abbrev pub KnowsAuthors : Db → Type 0
KnowsAuthors db = All (λ row. has_user row.author_id db.users ≡ true) db.requests

-- The keys of the table of users: its ids, the emails up to the letters' case, and the authors of
-- the requests.
abbrev pub HasUserKeys : Pgx → Db → Type 0
HasUserKeys pg db = HasUniqueEmails pg db.users × HasUniqueUserIds db.users × KnowsAuthors db

abbrev pub Registered : Db → Db → Type 0
Registered db db' = (db' ≡ db) ⊎ ((u : UserRow) × (db' ≡ record db { users = u ∷ db.users }))

-- A call leaves the tables alone or adds one account.
pub create_user-Registered :
    (pg : Pgx) (c : Call) (email hash : Bytes) (db : Db)
    → Registered db (create_user pg c email hash db).1
unfolding create_user
create_user-Registered pg c email hash db = elim (Option-cases c.query_error) [
  | inr (m, failed) ↦ inl (ground arith)
  | inl sound ↦ elim (Bool-cases (has_email pg email db.users || has_user c.new_id db.users)) [
    | inl taken ↦ inl (ground arith)
    | inr fresh ↦ inr (new_user c email hash, ground arith)
  ]
]

Registered-KnowsAuthors : (db db' : Db) → Registered db db' → KnowsAuthors db → KnowsAuthors db'
Registered-KnowsAuthors db db' (inl same) h = subst KnowsAuthors (sym same) h
Registered-KnowsAuthors db db' (inr (u, effect)) h = subst KnowsAuthors (sym effect) (
    All-map (λ row. has_user row.author_id db.users ≡ true)
      (λ row. has_user row.author_id (u ∷ db.users) ≡ true) db.requests (λ row known. ground arith)
      h)

pub create_user-HasUserKeys :
    (pg : Pgx) (c : Call) (email hash : Bytes) (db : Db)
    → HasUserKeys pg db
    → HasUserKeys pg (create_user pg c email hash db).1
create_user-HasUserKeys pg c email hash db h = (
  create_user-HasUniqueEmails pg c email hash db h.0,
  create_user-HasUniqueUserIds pg c email hash db h.1,
  Registered-KnowsAuthors db (create_user pg c email hash db).1
      (create_user-Registered pg c email hash db) h.2,
)

pub create_user_new :
    (pg : Pgx) (c : Call) (email hash : Bytes) (db : Db)
    → c.query_error ≡ none
    → has_email pg email db.users ≡ false
    → has_user c.new_id db.users ≡ false
    → create_user pg c email hash db ≡ (
      ok (record_of pg (new_user c email hash)),
      record db { users = new_user c email hash ∷ db.users },
    )
unfolding create_user
create_user_new pg c email hash db sound fresh id = ground arith

pub create_user_taken :
    (pg : Pgx) (c : Call) (email hash : Bytes) (db : Db)
    → c.query_error ≡ none
    → has_email pg email db.users ≡ true
    → create_user pg c email hash db
      ≡ (err (prefixed (codes "create user: ") (plain (unique_violation pg))), db)
unfolding create_user
create_user_taken pg c email hash db sound taken = ground arith

pub get_user_by_email_lem :
    (pg : Pgx) (c : Call) (email : Bytes) (db : Db) (u : UserRow)
    → c.query_error ≡ none
    → find_email pg email db.users ≡ some u
    → get_user_by_email pg c email db ≡ (ok (record_of pg u), db)
unfolding get_user_by_email
get_user_by_email_lem pg c email db u sound found = ground arith

pub get_user_by_email_missing :
    (pg : Pgx) (c : Call) (email : Bytes) (db : Db)
    → c.query_error ≡ none
    → find_email pg email db.users ≡ none
    → get_user_by_email pg c email db
      ≡ (err (prefixed (codes "get user by email: ") (sentinel Sentinel.no_rows)), db)
unfolding get_user_by_email
get_user_by_email_missing pg c email db sound missing = ground arith

pub has_email-find :
    (pg : Pgx) (email : Bytes) (us : List UserRow)
    → has_email pg email us ≡ false
    → find_email pg email us ≡ none
has_email-find pg email [] h = refl
has_email-find pg email (u ∷ us) h = ground (arith, has_email-find pg email us)

pub get_user_by_email-pure :
    (pg : Pgx) (c : Call) (email : Bytes) (db : Db) → (get_user_by_email pg c email db).1 ≡ db
unfolding get_user_by_email
get_user_by_email-pure pg c email db = elim (Option-cases c.query_error) [
  | inl sound ↦ ground (arith, sound)
  | inr (m, failed) ↦ ground (arith, failed)
]
