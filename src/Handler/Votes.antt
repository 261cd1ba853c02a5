-- ===== src/Handler/Votes.antt =====
-- `VotesHandler` of internal/handler/votes.go.
pub mod Status
pub mod Writes
use feature_voting_system.Prelude.{Bool, codes, not, if◌then◌else◌}
use feature_voting_system.Errors.{Sentinel, Error, error_is, Result, ok, err}
use feature_voting_system.Http.{
  Request, Response, Body, value, write_json, write_error, get_user_id,
}
use feature_voting_system.Service.Vote
use feature_voting_system.Service.Vote.{VoteResult, VoteRepo}

abbrev pub VoteResponse : Type 0
VoteResponse = Response (Body VoteResult)

-- The `switch` of `Upvote` over `errors.Is`.
abbrev upvote_error : Error → VoteResponse
upvote_error e =
    if error_is e Sentinel.self_vote
    then write_error 403 (codes "forbidden_self_vote") (codes "you cannot vote on your own request")
    else if error_is e Sentinel.not_found
    then write_error 404 (codes "not_found") (codes "feature request not found")
    else write_error 500 (codes "internal_error") (codes "vote failed")

abbrev removal_error : Error → VoteResponse
removal_error e =
    if error_is e Sentinel.not_found
    then write_error 404 (codes "not_found") (codes "feature request not found")
    else write_error 500 (codes "internal_error") (codes "vote removal failed")

abbrev answer : {S : Type 0} → (Error → VoteResponse) → Result VoteResult × S → VoteResponse × S
answer f (ok result, s) = (write_json 200 (value result), s)
answer f (err e, s) = (f e, s)

abbrev unauthorized : VoteResponse
unauthorized = write_error 401 (codes "unauthorized") (codes "authentication required")

module _ {S : Type 0} (repo : VoteRepo S) where
  pub upvote : Request → S → VoteResponse × S
  upvote r s =
      let (user, present) = get_user_id r.context_user in
      if not present
      then (unauthorized, s)
      else answer upvote_error (Vote.upvote repo user r.path_id s)

  pub remove_vote : Request → S → VoteResponse × S
  remove_vote r s =
      let (user, present) = get_user_id r.context_user in
      if not present
      then (unauthorized, s)
      else answer removal_error (Vote.remove_vote repo user r.path_id s)
