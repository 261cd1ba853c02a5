-- ===== src/Postgres/Transaction.antt =====
-- `pool.Begin`, `tx.Exec`, `tx.Commit` and the deferred `tx.Rollback`, as the vote repository
-- (internal/repository/postgres/votes.go) composes them.
pub mod Atomic
use feature_voting_system.Prelude.{ℕ, Option, none, some, Bytes, codes}
use feature_voting_system.Errors.{plain, prefixed, Result, ok, err, Action}
use feature_voting_system.Database.{Db, Pgx, Call, Commit}

-- What a statement does to the tables: the rows it affected, or the message of its error.
pub data Outcome : Type 0 where
  done : ℕ → Db → Outcome
  failed : Bytes → Outcome

abbrev pub Statement : Type 0
Statement = Db → Outcome

-- A parameter that stands for a UUID; a text that is none fails the statement.
abbrev pub with_uuid : Pgx → Bytes → (ℕ → Outcome) → Outcome
with_uuid pg s f = elim (pg.parse_uuid s) [ none ↦ failed pg.invalid_uuid | some u ↦ f u ]

abbrev pub settle : Bytes → Db → Outcome → Result ℕ × Db
settle what db (done n db') = (ok n, db')
settle what db (failed m) = (err (prefixed what (plain m)), db)

-- `tx.Exec` of the k-th statement, and the wrapping of its error.
abbrev pub exec : Call → ℕ → Bytes → Statement → Action Db ℕ
exec c k what stmt db = elim (c.exec_error k) [
  | some m ↦ (err (prefixed what (plain m)), db)
  | none ↦ settle what db (stmt db)
]

-- The end of a transaction that began at `db`: an early return rolls back.
abbrev pub close_tx : {A : Type 0} → Commit → Db → Result A × Db → Result A × Db
close_tx commit db (err e, _) = (err e, db)
close_tx Commit.committed db (ok a, db') = (ok a, db')
close_tx (Commit.refused m) db (ok a, db') = (err (prefixed (codes "commit tx: ") (plain m)), db)
close_tx (Commit.in_doubt m) db (ok a, db') = (err (prefixed (codes "commit tx: ") (plain m)), db')

-- `begin` is the error of `pool.Begin`, `out` what the body did.
abbrev pub open_tx : {A : Type 0} → Option Bytes → Commit → Db → Result A × Db → Result A × Db
open_tx (some m) commit db out = (err (prefixed (codes "begin tx: ") (plain m)), db)
open_tx none commit db out = close_tx commit db out

unfoldable pub transaction : {A : Type 0} → Call → Action Db A → Action Db A
transaction c body db = open_tx c.begin_error c.commit db (body db)
