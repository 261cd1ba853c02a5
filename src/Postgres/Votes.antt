-- ===== src/Postgres/Votes.antt =====
-- `VoteRepo` of internal/repository/postgres/votes.go: the statements and the methods.
pub mod Counts
pub mod Insert
pub mod Delete
pub mod Read
pub mod SelfVote
pub mod Foreign
use feature_voting_system.Prelude.{
  ℕ, zero, ◌-◌, ◌^◌, Bool, true, false, ◌&&◌, List, [], ◌∷◌, Option, none, some, Bytes, codes, ℤ,
  pos, ◌+ℤ◌, ◌-ℤ◌, ltb_ℤ, max_ℤ, ltb, ◌==◌, if◌then◌else◌,
}
use feature_voting_system.Prelude
use feature_voting_system.Errors.{
  Error, plain, prefixed, Result, ok, err, Action, pure, ◌>>=◌, ◌>>◌,
}
use feature_voting_system.Database.{RequestRow, Vote, Db, Pgx, Call}
use feature_voting_system.Database.Tables.{
  find_request, has_request, has_user, is_vote, has_vote, count_votes,
}
use feature_voting_system.Postgres.Transaction.{
  Outcome, done, failed, Statement, with_uuid, exec, transaction,
}

-- `UPDATE feature_requests SET … WHERE id = i`
abbrev pub update_request : ℕ → (RequestRow → RequestRow) → List RequestRow → List RequestRow
update_request i f [] = []
update_request i f (r ∷ rs) = (if i == r.id then f r else r) ∷ update_request i f rs

-- `INSERT INTO votes … ON CONFLICT (user_id, request_id) DO NOTHING`; the foreign keys are
-- checked for a row that is new.
insert_vote_row : Pgx → ℤ → ℕ → ℕ → Statement
insert_vote_row pg now u r db =
    if has_vote u r db.votes
    then done 0 db
    else if has_user u db.users && has_request r db.requests
    then done 1
        (record db { votes = record { user_id = u; request_id = r; created_at = now } ∷ db.votes })
    else failed pg.foreign_key_violation

pub insert_vote_sql : Pgx → ℤ → Bytes → Bytes → Statement
unfolding insert_vote_row
insert_vote_sql pg now user request db =
    with_uuid pg user λ u. with_uuid pg request λ r. insert_vote_row pg now u r db

abbrev pub bumped : ℤ → ℤ → RequestRow → RequestRow
bumped now n row = record row { vote_count = n; updated_at = now }

-- `SET vote_count = vote_count + 1, updated_at = now()`, in a column of 32 bits.
increment_row : Pgx → ℤ → ℕ → Statement
unfolding ◌+ℤ◌
increment_row pg now r db = elim (find_request r db.requests) [
  | none ↦ done 0 db
  | some row ↦
      if ltb_ℤ (pos (2 ^ 31 - 1)) (row.vote_count +ℤ pos 1)
      then failed pg.integer_out_of_range
      else done 1 (record db {
        requests = update_request r (λ x. bumped now (x.vote_count +ℤ pos 1) x) db.requests;
      })
]

pub increment_sql : Pgx → ℤ → Bytes → Statement
unfolding increment_row
increment_sql pg now request db = with_uuid pg request λ r. increment_row pg now r db

-- `DELETE FROM votes WHERE user_id = $1 AND request_id = $2`
abbrev pub delete_votes : ℕ → ℕ → List Vote → List Vote
delete_votes u r [] = []
delete_votes u r (v ∷ vs) =
    let rest = delete_votes u r vs in if is_vote u r v then rest else v ∷ rest

abbrev pub count_pair : ℕ → ℕ → List Vote → ℕ
count_pair u r [] = 0
count_pair u r (v ∷ vs) =
    let rest = count_pair u r vs in if is_vote u r v then Prelude.suc rest else rest

delete_vote_row : ℕ → ℕ → Statement
delete_vote_row u r db =
    done (count_pair u r db.votes) (record db { votes = delete_votes u r db.votes })

pub delete_vote_sql : Pgx → Bytes → Bytes → Statement
unfolding delete_vote_row
delete_vote_sql pg user request db =
    with_uuid pg user λ u. with_uuid pg request λ r. delete_vote_row u r db

-- `SET vote_count = GREATEST(vote_count - 1, 0), updated_at = now()`
decrement_row : ℤ → ℕ → Statement
unfolding ◌-ℤ◌
decrement_row now r db = done 1 (record db {
  requests =
      update_request r (λ x. bumped now (max_ℤ (x.vote_count -ℤ pos 1) (pos 0)) x) db.requests;
})

pub decrement_sql : Pgx → ℤ → Bytes → Statement
unfolding decrement_row
decrement_sql pg now request db = with_uuid pg request λ r. decrement_row now r db

-- The body of `InsertVote` between Begin and Commit.
insert_body : Pgx → Call → Bytes → Bytes → Action Db Bool
unfolding insert_vote_sql increment_sql
insert_body pg c user request = do
  rows ← exec c 0 (codes "insert vote: ") (insert_vote_sql pg c.now user request)
  let inserted = ltb 0 rows
  let increment =
      exec c 1 (codes "increment vote_count: ") (increment_sql pg c.now request) >>= λ _. pure true
  if inserted then increment else pure false

pub insert_vote : Pgx → Call → Bytes → Bytes → Action Db Bool
unfolding insert_body transaction
insert_vote pg c user request = transaction c (insert_body pg c user request)

delete_body : Pgx → Call → Bytes → Bytes → Action Db Bool
unfolding delete_vote_sql decrement_sql
delete_body pg c user request = do
  rows ← exec c 0 (codes "delete vote: ") (delete_vote_sql pg user request)
  let deleted = ltb 0 rows
  let decrement =
      exec c 1 (codes "decrement vote_count: ") (decrement_sql pg c.now request) >>= λ _. pure true
  if deleted then decrement else pure false

pub delete_vote : Pgx → Call → Bytes → Bytes → Action Db Bool
unfolding delete_body transaction
delete_vote pg c user request = transaction c (delete_body pg c user request)

-- A query for one row by its id: the text of the error, or the row if there is one.
abbrev pub query_request : Pgx → Call → Bytes → Db → Result (Option RequestRow)
query_request pg c request db = elim c.query_error [
  | some m ↦ err (plain m)
  | none ↦ elim (pg.parse_uuid request) [
    | none ↦ err (plain pg.invalid_uuid)
    | some r ↦ ok (find_request r db.requests)
  ]
]

abbrev scan_count : Result (Option RequestRow) → Result ℤ
scan_count (err e) = err (prefixed (codes "get vote count: ") e)
scan_count (ok none) = err (plain (codes "feature request not found"))
scan_count (ok (some row)) = ok row.vote_count

pub get_vote_count : Pgx → Call → Bytes → Action Db ℤ
get_vote_count pg c request db = (scan_count (query_request pg c request db), db)

abbrev scan_author : Pgx → Result (Option RequestRow) → Result Bytes
scan_author pg (err e) = err (prefixed (codes "get author id: ") e)
scan_author pg (ok none) = err (plain (codes "feature request not found"))
scan_author pg (ok (some row)) = ok (pg.uuid_text row.author_id)

pub get_request_author_id : Pgx → Call → Bytes → Action Db Bytes
get_request_author_id pg c request db = (scan_author pg (query_request pg c request db), db)
