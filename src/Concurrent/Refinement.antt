-- ===== src/Concurrent/Refinement.antt =====
-- The service's calls are made of the steps.
use feature_voting_system.Prelude.{ℕ, ◌≡◌, sym, refl, inl, inr, [], Bytes}
use feature_voting_system.Database.{Pgx}
use feature_voting_system.Service.Vote.{VoteCalls, postgres_votes, upvote, remove_vote}
use feature_voting_system.Service.Vote.Paths.{upvote_writes, remove_vote_writes}
use feature_voting_system.Service.Vote.Contract.{postgres_votes-VoteLaws}
use feature_voting_system.Concurrent.{World, Reach, check, insert, remove, here, later}

module _ (pg : Pgx) (calls : VoteCalls) (w : World) where
  -- Whatever `Upvote` does to the tables for the user of a token, a check and an insertion do.
  pub upvote-Reach :
      (u : ℕ) (request : Bytes)
      → (w' : World) × Reach pg w w'
        × (w'.db ≡ (upvote (postgres_votes pg calls) (pg.uuid_text u) request w.db).1)
  upvote-Reach u request =
      elim (upvote_writes (postgres_votes pg calls) (postgres_votes-VoteLaws pg calls)
        (pg.uuid_text u) request w.db) [
          | inl same ↦ (w, here, sym same)
          | inr (author, read, other, wrote) ↦ (
            _,
            later (later here (check calls.author u request author read other))
                (insert calls.write u request [] w.checked refl),
            sym wrote,
          )
        ]

  -- The same of `RemoveVote`, for any user.
  pub remove_vote-Reach :
      (user request : Bytes)
      → (w' : World) × Reach pg w w'
        × (w'.db ≡ (remove_vote (postgres_votes pg calls) user request w.db).1)
  remove_vote-Reach user request =
      elim (remove_vote_writes (postgres_votes pg calls) (postgres_votes-VoteLaws pg calls) user
        request w.db) [
          | inl same ↦ (w, here, sym same)
          | inr wrote ↦ (_, later here (remove calls.write user request), sym wrote)
        ]
