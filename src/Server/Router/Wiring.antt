-- ===== src/Server/Router/Wiring.antt =====
-- The handlers that cmd/server/main.go makes, at their routes.
use feature_voting_system.Prelude.{Option, Bytes}
use feature_voting_system.Errors.{Error}
use feature_voting_system.Http.{Request, Response, Body}
use feature_voting_system.Postgres.Requests.{FeatureRequest}
use feature_voting_system.Service.User.{UserRepo, Passwords}
use feature_voting_system.Service.Request.{RequestRepo}
use feature_voting_system.Service.Page.{RequestPage}
use feature_voting_system.Service.Ranking.{RankingRepo}
use feature_voting_system.Service.Vote.{VoteRepo, VoteResult}
use feature_voting_system.Handler.Auth
use feature_voting_system.Handler.Auth.{AuthBody, Tokens}
use feature_voting_system.Handler.Requests
use feature_voting_system.Handler.Requests.{Digest}
use feature_voting_system.Handler.Votes
use feature_voting_system.Server.{Checks, readyz, healthz}
use feature_voting_system.Server.Router.{Endpoint, Api, with_json}

-- What the JSON encoder writes of each value.
pub record Json : Type 0 where
  pub auth : AuthBody → Bytes
  pub request : FeatureRequest → Bytes
  pub page : RequestPage → Bytes
  pub vote : VoteResult → Bytes
  pub checks : Checks → Bytes

-- The repositories and services, the errors of the two pings, and the page of promhttp.
pub record Parts (S : Type 0) : Type 0 where
  pub user_repo : UserRepo S
  pub request_repo : RequestRepo S
  pub ranking_repo : RankingRepo S
  pub vote_repo : VoteRepo S
  pub passwords : Passwords
  pub tokens : Tokens
  pub digest : Digest
  pub json : Json
  pub postgres_ping : Option Error
  pub redis_ping : Option Error
  pub metrics_page : Request → Response (Body Bytes)

module _ {S : Type 0} (p : Parts S) where
  unfoldable pub api : Api S
  api Endpoint.healthz = λ r s. (healthz, s)
  api Endpoint.health = λ r s. (healthz, s)
  api Endpoint.readyz = with_json p.json.checks (λ r s. (readyz p.postgres_ping p.redis_ping, s))
  api Endpoint.metrics = λ r s. (p.metrics_page r, s)
  api Endpoint.register = with_json p.json.auth (Auth.register p.user_repo p.passwords p.tokens)
  api Endpoint.login = with_json p.json.auth (Auth.login p.user_repo p.passwords p.tokens)
  api Endpoint.refresh = with_json p.json.auth (λ r s. (Auth.refresh p.tokens r, s))
  api Endpoint.submit = with_json p.json.request (Requests.submit p.request_repo)
  api Endpoint.list = with_json p.json.page (Requests.list p.digest p.ranking_repo)
  api Endpoint.get_by_id = with_json p.json.request (Requests.get_by_id p.request_repo)
  api Endpoint.upvote = with_json p.json.vote (Votes.upvote p.vote_repo)
  api Endpoint.remove_vote = with_json p.json.vote (Votes.remove_vote p.vote_repo)
