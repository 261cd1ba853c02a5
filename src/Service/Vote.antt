-- ===== src/Service/Vote.antt =====
-- `VoteService` of internal/service/vote.go over the interface `VoteRepo`, and that interface
-- filled by the PostgreSQL repository.
pub mod Casting
pub mod Removal
pub mod Paths
pub mod Contract
use feature_voting_system.Prelude.{◌≡◌, Bool, true, false, Bytes, codes, ℤ, bytes_eq}
use feature_voting_system.Errors.{
  Sentinel, sentinel, Error, error_is, err, wrap, prefixed, Action, pure, on_error, raise_if, ◌>>=◌,
  ◌>>◌,
}
use feature_voting_system.Database.{Db, Pgx, Call}
use feature_voting_system.Postgres.Votes

pub record VoteResult : Type 0 where
  pub request_id : Bytes
  pub vote_count : ℤ
  pub user_voted : Bool

-- `S` is the state behind the repository.
pub record VoteRepo (S : Type 0) : Type 0 where
  pub insert_vote : Bytes → Bytes → Action S Bool
  pub delete_vote : Bytes → Bytes → Action S Bool
  pub get_vote_count : Bytes → Action S ℤ
  pub get_request_author_id : Bytes → Action S Bytes

-- What the service relies on: the two queries change nothing, and the errors of the writes and of
-- the count hold none of the sentinels.
pub record VoteLaws {S : Type 0} (repo : VoteRepo S) : Type 0 where
  pub author_pure : (request : Bytes) (s : S) → (repo.get_request_author_id request s).1 ≡ s
  pub count_pure : (request : Bytes) (s : S) → (repo.get_vote_count request s).1 ≡ s
  pub insert_foreign :
      (user request : Bytes) (s : S) (e : Error) (t : Sentinel)
      → (repo.insert_vote user request s).0 ≡ err e
      → error_is e t ≡ false
  pub delete_foreign :
      (user request : Bytes) (s : S) (e : Error) (t : Sentinel)
      → (repo.delete_vote user request s).0 ≡ err e
      → error_is e t ≡ false
  pub count_foreign :
      (request : Bytes) (s : S) (e : Error) (t : Sentinel)
      → (repo.get_vote_count request s).0 ≡ err e
      → error_is e t ≡ false

module _ {S : Type 0} (repo : VoteRepo S) where
  unfoldable pub upvote : Bytes → Bytes → Action S VoteResult
  upvote user request = do
    author ←
        on_error
          (λ _. wrap (codes "") (sentinel Sentinel.not_found) (codes ": feature request not found"))
          (repo.get_request_author_id request)
    raise_if (bytes_eq author user) (sentinel Sentinel.self_vote)
    inserted ← on_error (prefixed (codes "insert vote: ")) (repo.insert_vote user request)
    count ← on_error (prefixed (codes "get vote count: ")) (repo.get_vote_count request)
    pure (record { request_id = request; vote_count = count; user_voted = true })

  unfoldable pub remove_vote : Bytes → Bytes → Action S VoteResult
  remove_vote user request = do
    author ←
        on_error
          (λ _. wrap (codes "") (sentinel Sentinel.not_found) (codes ": feature request not found"))
          (repo.get_request_author_id request)
    deleted ← on_error (prefixed (codes "delete vote: ")) (repo.delete_vote user request)
    count ← on_error (prefixed (codes "get vote count: ")) (repo.get_vote_count request)
    pure (record { request_id = request; vote_count = count; user_voted = false })

-- The environment of the three repository calls that a vote makes.
pub record VoteCalls : Type 0 where
  pub author : Call
  pub write : Call
  pub count : Call

-- cmd/server/main.go hands `pgRepo.NewVoteRepo(pool)` to the service.
abbrev pub postgres_votes : Pgx → VoteCalls → VoteRepo Db
postgres_votes pg calls = record {
  insert_vote = Votes.insert_vote pg calls.write;
  delete_vote = Votes.delete_vote pg calls.write;
  get_vote_count = Votes.get_vote_count pg calls.count;
  get_request_author_id = Votes.get_request_author_id pg calls.author;
}
