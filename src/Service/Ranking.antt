-- ===== src/Service/Ranking.antt =====
-- `RankingService` of internal/service/ranking.go.
pub mod Client
pub mod Walk
pub mod Equivalence
use feature_voting_system.Prelude.{◌++◌, List, Bytes, codes, bytes_eq, if◌then◌else◌}
use feature_voting_system.Errors.{prefixed, Action, pure, on_error, ◌>>=◌}
use feature_voting_system.Database.{Db, Pgx, Call}
use feature_voting_system.Postgres.Requests.{
  FeatureRequest, ListParams, Listing, list_requests, list_requests_by_trending,
}
use feature_voting_system.Service.Page.{RequestPage, page_limit, fetch_params, page_of}

pub record RankingRepo (S : Type 0) : Type 0 where
  pub list_requests_by_top : ListParams → Action S (List FeatureRequest)
  pub list_requests_by_trending : ListParams → Action S (List FeatureRequest)
  pub list_requests_by_new : ListParams → Action S (List FeatureRequest)

module _ {S : Type 0} (repo : RankingRepo S) where
  -- The `switch` on the sort.
  abbrev pub fetch : Bytes → ListParams → Action S (List FeatureRequest)
  fetch sort params =
      if bytes_eq sort (codes "top")
      then repo.list_requests_by_top params
      else if bytes_eq sort (codes "trending")
      then repo.list_requests_by_trending params
      else repo.list_requests_by_new params

  unfoldable pub list : ListParams → Action S RequestPage
  list params = do
    items ←
        on_error (prefixed (codes "list requests (" ++ (params.sort ++ codes "): ")))
          (fetch params.sort (fetch_params params))
    pure (page_of (page_limit params.limit) items)

-- cmd/server/main.go hands `pgRepo.NewRequestRepo(pool)` to the service.
abbrev pub postgres_ranking : Pgx → Call → RankingRepo Db
postgres_ranking pg c = record {
  list_requests_by_top = list_requests Listing.top pg c;
  list_requests_by_trending = list_requests_by_trending pg c;
  list_requests_by_new = list_requests Listing.new pg c;
}
