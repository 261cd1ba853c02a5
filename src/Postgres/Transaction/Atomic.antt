-- ===== src/Postgres/Transaction/Atomic.antt =====
-- A transaction is all or nothing.
use feature_voting_system.Prelude.{◌≡◌, refl, ◌⊎◌, inl, inr, Bytes, some, none, Option}
use feature_voting_system.Errors.{Error, Result, ok, err, Action}
use feature_voting_system.Database.{Db, Call, Commit}
use feature_voting_system.Postgres.Transaction.{close_tx, open_tx, transaction}

-- How a transaction that began at `db` may end, where `P` is what its body promises: with the
-- body's result and effect, or with an error. An error leaves the tables as they were, unless the
-- answer to the commit was lost.
abbrev pub Ends : {A : Type 0} → (A → Db → Type 0) → Commit → Db → Result A × Db → Type 0
Ends P commit db (ok a, db') = P a db'
Ends {A} P commit db (err e, db') =
    (db' ≡ db) ⊎ ((m : Bytes) × (commit ≡ Commit.in_doubt m) × (a : A) × P a db')

close_tx-Ends :
    {A : Type 0} (P : A → Db → Type 0) (commit : Commit) (db : Db) (out : Result A × Db)
    → ((a : A) (db' : Db) → out ≡ (ok a, db') → P a db')
    → Ends P commit db (close_tx commit db out)
close_tx-Ends P commit db (err e, db') h = inl refl
close_tx-Ends P Commit.committed db (ok a, db') h = h a db' refl
close_tx-Ends P (Commit.refused m) db (ok a, db') h = inl refl
close_tx-Ends P (Commit.in_doubt m) db (ok a, db') h = inr (m, refl, a, h a db' refl)

open_tx-Ends :
    {A : Type 0} (P : A → Db → Type 0) (begin : Option Bytes) (commit : Commit) (db : Db)
    (out : Result A × Db)
    → ((a : A) (db' : Db) → out ≡ (ok a, db') → P a db')
    → Ends P commit db (open_tx begin commit db out)
open_tx-Ends P none commit db out h = close_tx-Ends P commit db out h
open_tx-Ends P (some m) commit db out h = inl refl

pub transaction-Ends :
    {A : Type 0} (P : A → Db → Type 0) (c : Call) (body : Action Db A) (db : Db)
    → ((a : A) (db' : Db) → body db ≡ (ok a, db') → P a db')
    → Ends P c.commit db (transaction c body db)
unfolding transaction
transaction-Ends P c body db h = open_tx-Ends P c.begin_error c.commit db (body db) h

-- Where every answer arrives, an error means that nothing was changed.
pub Ends-error :
    {A : Type 0} (P : A → Db → Type 0) (commit : Commit) (db : Db) (out : Result A × Db) {e : Error}
    → ((m : Bytes) → ¬ (commit ≡ Commit.in_doubt m))
    → Ends P commit db out
    → out.0 ≡ err e
    → out.1 ≡ db
Ends-error P commit db (ok a, db') answered h q = cc
Ends-error P commit db (err e, db') answered (inl same) q = same
Ends-error P commit db (err e, db') answered (inr (m, lost, _, _)) q = absurd (answered m lost)
