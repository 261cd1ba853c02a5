-- ===== src/Service/Vote/Paths.antt =====
-- `Upvote` and `RemoveVote` on every path, whatever the repository's calls return.
use feature_voting_system.Prelude.{◌≡◌, ◌⊎◌, inl, inr, false, Bytes, arith, bytes_eq, Bool-cases}
use feature_voting_system.Errors.{ok, Result-cases}
use feature_voting_system.Service.Vote.{VoteRepo, VoteLaws, upvote, remove_vote}

module _ {S : Type 0} (repo : VoteRepo S) (laws : VoteLaws repo) (user request : Bytes)
    (s : S) where
  -- Either nothing was written, or the author is another user and the state is what `InsertVote`
  -- left.
  pub upvote_writes :
      ((upvote repo user request s).1 ≡ s)
      ⊎ ((author : Bytes) × ((repo.get_request_author_id request s).0 ≡ ok author)
          × (bytes_eq author user ≡ false)
          × ((upvote repo user request s).1 ≡ (repo.insert_vote user request s).1))
  unfolding upvote
  upvote_writes = elim (Result-cases (repo.get_request_author_id request s).0) [
    | inr (e, failed) ↦ inl (ground (arith, laws.author_pure request s))
    | inl (author, read) ↦ elim (Bool-cases (bytes_eq author user)) [
      | inl own ↦ inl (ground (arith, laws.author_pure request s))
      | inr other ↦ inr (
        author,
        read,
        other,
        ground (
          arith,
          laws.author_pure request s,
          laws.count_pure request (repo.insert_vote user request s).1,
        ),
      )
    ]
  ]

  pub remove_vote_writes :
      ((remove_vote repo user request s).1 ≡ s)
      ⊎ ((remove_vote repo user request s).1 ≡ (repo.delete_vote user request s).1)
  unfolding remove_vote
  remove_vote_writes = elim (Result-cases (repo.get_request_author_id request s).0) [
    | inr (e, failed) ↦ inl (ground (arith, laws.author_pure request s))
    | inl (author, read) ↦ inr (
        ground (
          arith,
          laws.author_pure request s,
          laws.count_pure request (repo.delete_vote user request s).1,
        ))
  ]
