-- ===== src/Postgres/Votes/Read.antt =====
-- What the two queries of `VoteRepo` return, and the votes as a set of pairs.
use feature_voting_system.Prelude.{
  ℕ, inl, inr, Option-cases, ◌≡◌, refl, ◌&&◌, not, List, [], ◌∷◌, none, some, Bytes, ℤ, arith, ◌==◌,
}
use feature_voting_system.Errors.{ok}
use feature_voting_system.Database.{RequestRow, Vote, Db, Pgx, Call}
use feature_voting_system.Database.Tables.{find_request, has_vote}
use feature_voting_system.Postgres.Votes.{
  update_request, bumped, delete_votes, get_vote_count, get_request_author_id,
}

pub get_vote_count_found :
    (pg : Pgx) (c : Call) (request : Bytes) (r : ℕ) (row : RequestRow) (db : Db)
    → c.query_error ≡ none
    → pg.parse_uuid request ≡ some r
    → find_request r db.requests ≡ some row
    → get_vote_count pg c request db ≡ (ok row.vote_count, db)
unfolding get_vote_count
get_vote_count_found pg c request r row db sound parsed found = ground arith

pub get_request_author_id_found :
    (pg : Pgx) (c : Call) (request : Bytes) (r : ℕ) (row : RequestRow) (db : Db)
    → c.query_error ≡ none
    → pg.parse_uuid request ≡ some r
    → find_request r db.requests ≡ some row
    → get_request_author_id pg c request db ≡ (ok (pg.uuid_text row.author_id), db)
unfolding get_request_author_id
get_request_author_id_found pg c request r row db sound parsed found = ground arith

pub get_vote_count-pure :
    (pg : Pgx) (c : Call) (request : Bytes) (db : Db) → (get_vote_count pg c request db).1 ≡ db
unfolding get_vote_count
get_vote_count-pure pg c request db = refl

pub get_request_author_id-pure :
    (pg : Pgx) (c : Call) (request : Bytes) (db : Db)
    → (get_request_author_id pg c request db).1 ≡ db
unfolding get_request_author_id
get_request_author_id-pure pg c request db = refl

-- A row is found after an update of its counter as well.
pub find_request-update :
    (now : ℤ) (f : RequestRow → ℤ) (r : ℕ) (row : RequestRow) (rows : List RequestRow)
    → find_request r rows ≡ some row
    → find_request r (update_request r (λ x. bumped now (f x) x) rows)
      ≡ some (bumped now (f row) row)
find_request-update now f r row [] h = ground arith
find_request-update now f r row (x ∷ rows) h = ground (arith, find_request-update now f r row rows)

pub has_vote-delete_eq :
    (u r a s : ℕ) (votes : List Vote)
    → has_vote a s (delete_votes u r votes) ≡ (not (a == u && s == r) && has_vote a s votes)
has_vote-delete_eq u r a s [] = ground arith
has_vote-delete_eq u r a s (v ∷ votes) = ground (arith, has_vote-delete_eq u r a s votes)

-- The author that was read is the author of a request that there is.
pub get_request_author_id-row :
    (pg : Pgx) (c : Call) (request author : Bytes) (r : ℕ) (db : Db)
    → (get_request_author_id pg c request db).0 ≡ ok author
    → pg.parse_uuid request ≡ some r
    → (row : RequestRow) × (find_request r db.requests ≡ some row)
      × (author ≡ pg.uuid_text row.author_id)
unfolding get_request_author_id
get_request_author_id-row pg c request author r db read parsed =
    elim (Option-cases (find_request r db.requests)) [
      | inl missing ↦ absurd (ground arith)
      | inr (row, found) ↦ (row, found, ground arith)
    ]
