-- ===== src/Concurrent/Effects.antt =====
-- What one call of a repository may do to the tables.
use feature_voting_system.Prelude.{
  ℕ, ◌≡◌, ◌⊎◌, sym, ap, ◌∙◌, inl, inr, true, false, Bool, List, [], ◌∷◌, some, Bytes, ℤ, All, arith,
  Bool-cases, Option-cases,
}
use mathlib.Core.Option.{some-injective}
use feature_voting_system.Errors.{Result, ok, err}
use feature_voting_system.Database.{RequestRow, Db, Pgx, Call}
use feature_voting_system.Database.Tables.{has_request, has_user}
use feature_voting_system.Database.Consistency.{IsCounted}
use feature_voting_system.Postgres.Transaction.Atomic.{Ends}
use feature_voting_system.Postgres.Votes.{insert_vote, delete_vote}
use feature_voting_system.Postgres.Votes.Insert.{add_vote, InsertedBy, insert_vote-Ends}
use feature_voting_system.Postgres.Votes.Delete.{remove_vote, DeletedBy, delete_vote-Ends}
use feature_voting_system.Postgres.Requests.{new_request, insert_feature_request}
use feature_voting_system.Postgres.Ranking.{Mismatch, get_vote_count_mismatches}
use feature_voting_system.Jobs.Reconcile.Round.{none_mismatched}

-- Nothing, or one vote of `u`.
abbrev pub Voted : Pgx → ℕ → Bytes → Db → Db → Type 0
Voted pg u request db db' =
    (db' ≡ db)
    ⊎ ((r : ℕ) × (now : ℤ) × (pg.parse_uuid request ≡ some r) × (db' ≡ add_vote now u r db))

inserted_Voted :
    (pg : Pgx) (c : Call) (u : ℕ) (request : Bytes) (db : Db) (b : Bool) (db' : Db)
    → InsertedBy pg c (pg.uuid_text u) request db b db'
    → Voted pg u request db db'
inserted_Voted pg c u request db false db' h = inl (h.4.1)
inserted_Voted pg c u request db true db' h =
    let same = some-injective (h.0) u (sym (h.2) ∙ pg.parse-text u) in
    inr (h.1, c.now, h.3, h.4.effect ∙ ap (λ v. add_vote c.now v (h.1) db) same)

Ends-Voted :
    (pg : Pgx) (c : Call) (u : ℕ) (request : Bytes) (db : Db) (out : Result Bool × Db)
    → Ends (InsertedBy pg c (pg.uuid_text u) request db) c.commit db out
    → Voted pg u request db out.1
Ends-Voted pg c u request db (ok b, db') e = inserted_Voted pg c u request db b db' e
Ends-Voted pg c u request db (err e', db') (inl same) = inl same
Ends-Voted pg c u request db (err e', db') (inr lost) =
    inserted_Voted pg c u request db lost.2 db' lost.3

pub insert_vote-Voted :
    (pg : Pgx) (c : Call) (u : ℕ) (request : Bytes) (db : Db)
    → Voted pg u request db (insert_vote pg c (pg.uuid_text u) request db).1
insert_vote-Voted pg c u request db =
    Ends-Voted pg c u request db (insert_vote pg c (pg.uuid_text u) request db)
      (insert_vote-Ends pg c (pg.uuid_text u) request db)

abbrev pub Unvoted : Db → Db → Type 0
Unvoted db db' = (db' ≡ db) ⊎ ((u : ℕ) × (r : ℕ) × (now : ℤ) × (db' ≡ remove_vote now u r db))

deleted_Unvoted :
    (pg : Pgx) (c : Call) (user request : Bytes) (db : Db) (b : Bool) (db' : Db)
    → DeletedBy pg c user request db b db'
    → Unvoted db db'
deleted_Unvoted pg c user request db false db' h = inl (h.4.1)
deleted_Unvoted pg c user request db true db' h = inr (h.0, h.1, c.now, h.4.effect)

Ends-Unvoted :
    (pg : Pgx) (c : Call) (user request : Bytes) (db : Db) (out : Result Bool × Db)
    → Ends (DeletedBy pg c user request db) c.commit db out
    → Unvoted db out.1
Ends-Unvoted pg c user request db (ok b, db') e = deleted_Unvoted pg c user request db b db' e
Ends-Unvoted pg c user request db (err e', db') (inl same) = inl same
Ends-Unvoted pg c user request db (err e', db') (inr lost) =
    deleted_Unvoted pg c user request db lost.2 db' lost.3

pub delete_vote-Unvoted :
    (pg : Pgx) (c : Call) (user request : Bytes) (db : Db)
    → Unvoted db (delete_vote pg c user request db).1
delete_vote-Unvoted pg c user request db =
    Ends-Unvoted pg c user request db (delete_vote pg c user request db)
      (delete_vote-Ends pg c user request db)

abbrev pub Submitted : Db → Db → Type 0
Submitted db db' =
    (db' ≡ db)
    ⊎ ((row : RequestRow) × (has_request row.id db.requests ≡ false)
        × (has_user row.author_id db.users ≡ true)
        × (db' ≡ record db { requests = row ∷ db.requests }))

pub insert_feature_request-Submitted :
    (pg : Pgx) (c : Call) (author title description : Bytes) (db : Db)
    → Submitted db (insert_feature_request pg c author title description db).1
unfolding insert_feature_request
insert_feature_request-Submitted pg c author title description db =
    elim (Option-cases c.query_error) [
      | inr (m, failed) ↦ inl (ground arith)
      | inl sound ↦ elim (Option-cases (pg.parse_uuid author)) [
        | inl bad ↦ inl (ground arith)
        | inr (a, parsed) ↦ elim (Bool-cases (has_request c.new_id db.requests)) [
          | inl taken ↦ inl (ground arith)
          | inr fresh ↦ elim (Bool-cases (has_user a db.users)) [
            | inr unknown ↦ inl (ground arith)
            | inl known ↦ inr (new_request c a title description, fresh, known, ground arith)
          ]
        ]
      ]
    ]

-- While the counters are right, the job finds nothing to fix.
pub get_vote_count_mismatches-nil :
    (pg : Pgx) (c : Call) (db : Db) (ms : List Mismatch)
    → All (IsCounted db.votes) db.requests
    → (get_vote_count_mismatches pg c db).0 ≡ ok ms
    → ms ≡ []
unfolding get_vote_count_mismatches
get_vote_count_mismatches-nil pg c db ms counted h =
    ground (arith, none_mismatched db.votes db.requests counted)
