-- ===== src/Handler/Votes/Writes.antt =====
-- What the vote handlers write.
use feature_voting_system.Prelude.{
  ◌≡◌, refl, ◌⊎◌, inl, inr, some, Bytes, codes, arith, bytes_eq, Bool-cases, Option-cases,
}
use feature_voting_system.Errors.{Error, Result, ok, err}
use feature_voting_system.Http.{Request}
use feature_voting_system.Service.Vote
use feature_voting_system.Service.Vote.{VoteRepo, VoteResult}
use feature_voting_system.Handler.Votes.{
  VoteResponse, answer, upvote_error, removal_error, upvote, remove_vote,
}

module _ {S : Type 0} where
  answer-state : (f : Error → VoteResponse) (out : Result VoteResult × S) → (answer f out).1 ≡ out.1
  answer-state f (ok v, s) = refl
  answer-state f (err e, s) = refl

module _ {S : Type 0} (repo : VoteRepo S) (r : Request) (s : S) where
  -- Nothing, or what the service's call for the user in the context does.
  pub upvote-writes :
      ((upvote repo r s).1 ≡ s)
      ⊎ ((user : Bytes) × (r.context_user ≡ some user)
          × ((upvote repo r s).1 ≡ (Vote.upvote repo user r.path_id s).1))
  unfolding upvote
  upvote-writes = elim (Option-cases r.context_user) [
    | inl anonymous ↦ inl (ground (arith, anonymous))
    | inr (user, named) ↦ elim (Bool-cases (bytes_eq user (codes ""))) [
      | inl empty ↦ inl (ground (arith, named, empty))
      | inr full ↦ inr (
        user,
        named,
        rw (named, full) (answer-state upvote_error (Vote.upvote repo user r.path_id s)),
      )
    ]
  ]

  pub remove_vote-writes :
      ((remove_vote repo r s).1 ≡ s)
      ⊎ ((user : Bytes) × (r.context_user ≡ some user)
          × ((remove_vote repo r s).1 ≡ (Vote.remove_vote repo user r.path_id s).1))
  unfolding remove_vote
  remove_vote-writes = elim (Option-cases r.context_user) [
    | inl anonymous ↦ inl (ground (arith, anonymous))
    | inr (user, named) ↦ elim (Bool-cases (bytes_eq user (codes ""))) [
      | inl empty ↦ inl (ground (arith, named, empty))
      | inr full ↦ inr (
        user,
        named,
        rw (named, full) (answer-state removal_error (Vote.remove_vote repo user r.path_id s)),
      )
    ]
  ]
