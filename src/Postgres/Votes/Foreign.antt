-- ===== src/Postgres/Votes/Foreign.antt =====
-- No error of `VoteRepo` holds a sentinel of the service: the handlers cannot take one for a
-- refused vote.
use feature_voting_system.Prelude.{◌≡◌, false, Bytes, arith}
use feature_voting_system.Errors.{Sentinel, Error, err, error_is}
use feature_voting_system.Database.{Db, Pgx, Call}
use feature_voting_system.Postgres.Votes.{insert_vote, delete_vote, get_vote_count}

pub insert_vote-foreign :
    (pg : Pgx) (c : Call) (user request : Bytes) (db : Db) (e : Error) (t : Sentinel)
    → (insert_vote pg c user request db).0 ≡ err e
    → error_is e t ≡ false
unfolding insert_vote
insert_vote-foreign pg c user request db e t h = ground arith

pub delete_vote-foreign :
    (pg : Pgx) (c : Call) (user request : Bytes) (db : Db) (e : Error) (t : Sentinel)
    → (delete_vote pg c user request db).0 ≡ err e
    → error_is e t ≡ false
unfolding delete_vote
delete_vote-foreign pg c user request db e t h = ground arith

pub get_vote_count-foreign :
    (pg : Pgx) (c : Call) (request : Bytes) (db : Db) (e : Error) (t : Sentinel)
    → (get_vote_count pg c request db).0 ≡ err e
    → error_is e t ≡ false
unfolding get_vote_count
get_vote_count-foreign pg c request db e t h = ground arith
