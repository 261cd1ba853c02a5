-- ===== src/Service/Vote/Contract.antt =====
-- The PostgreSQL repository keeps the contract of `VoteRepo`.
use feature_voting_system.Database.{Pgx}
use feature_voting_system.Postgres.Votes.Foreign.{
  insert_vote-foreign, delete_vote-foreign, get_vote_count-foreign,
}
use feature_voting_system.Postgres.Votes.Read.{get_vote_count-pure, get_request_author_id-pure}
use feature_voting_system.Service.Vote.{VoteCalls, VoteLaws, postgres_votes}

pub postgres_votes-VoteLaws : (pg : Pgx) (calls : VoteCalls) → VoteLaws (postgres_votes pg calls)
postgres_votes-VoteLaws pg calls = record {
  author_pure = get_request_author_id-pure pg calls.author;
  count_pure = get_vote_count-pure pg calls.count;
  insert_foreign = insert_vote-foreign pg calls.write;
  delete_foreign = delete_vote-foreign pg calls.write;
  count_foreign = get_vote_count-foreign pg calls.count;
}
