-- ===== src/Service/Request.antt =====
-- `RequestService` of internal/service/request.go over the interface `RequestRepo`.
pub mod Page
pub mod Submission
use feature_voting_system.Prelude.{
  ℕ, ◌++◌, List, Bytes, codes, bytes_eq, ltb, length, if◌then◌else◌,
}
use feature_voting_system.Errors.{
  Sentinel, sentinel, Error, wrap, prefixed, Action, pure, on_error, raise_if, ◌>>=◌, ◌>>◌,
}
use feature_voting_system.Text.Space.{trim_space}
use feature_voting_system.Text.Decimal.{write_int}
use feature_voting_system.Prelude.{pos, pos_part}
use feature_voting_system.Database.{Db, Pgx, Call}
use feature_voting_system.Postgres.Requests.{
  FeatureRequest, ListParams, Listing, list_requests, insert_feature_request, get_feature_request,
}
use feature_voting_system.Service.Page.{RequestPage}
use feature_voting_system.Service.Request.Page.{within_limit, one_more, request_page}

abbrev pub max_title_len : ℕ
max_title_len = 100

abbrev pub max_description_len : ℕ
max_description_len = 5000

pub record RequestRepo (S : Type 0) : Type 0 where
  pub insert_feature_request : Bytes → Bytes → Bytes → Action S FeatureRequest
  pub list_requests_by_new : ListParams → Action S (List FeatureRequest)
  pub list_requests_by_top : ListParams → Action S (List FeatureRequest)
  pub get_feature_request : Bytes → Bytes → Action S FeatureRequest

-- `fmt.Errorf("%w: …", ErrValidation)`
abbrev pub invalid : Bytes → Error
invalid reason = wrap (codes "") (sentinel Sentinel.validation) (codes ": " ++ reason)

abbrev pub too_long : Bytes → ℕ → Error
too_long name most =
    invalid (name ++ (codes " must be " ++ (write_int (pos most) ++ codes " characters or fewer")))

module _ {S : Type 0} (repo : RequestRepo S) where
  -- `len` counts bytes.
  abbrev pub submit_trimmed : Bytes → Bytes → Bytes → Action S FeatureRequest
  submit_trimmed author title description = do
    raise_if (bytes_eq title (codes "")) (invalid (codes "title is required"))
    raise_if (ltb max_title_len (length title)) (too_long (codes "title") max_title_len)
    raise_if (bytes_eq description (codes "")) (invalid (codes "description is required"))
    raise_if (ltb max_description_len (length description))
        (too_long (codes "description") max_description_len)
    req ←
        on_error (prefixed (codes "insert feature request: "))
          (repo.insert_feature_request author title description)
    pure req

  unfoldable pub submit : Bytes → Bytes → Bytes → Action S FeatureRequest
  submit author title description =
      submit_trimmed author (trim_space title) (trim_space description)

  abbrev pub fetch : Bytes → ListParams → Action S (List FeatureRequest)
  fetch sort params =
      if bytes_eq sort (codes "top")
      then repo.list_requests_by_top params
      else if bytes_eq sort (codes "trending")
      then repo.list_requests_by_top params
      else repo.list_requests_by_new params

  unfoldable pub list : ListParams → Action S RequestPage
  list given = do
    let params = within_limit given
    items ← on_error (prefixed (codes "list requests: ")) (fetch params.sort (one_more params))
    pure (request_page (pos_part params.limit) items)

  unfoldable pub get_by_id : Bytes → Bytes → Action S FeatureRequest
  get_by_id id viewer = do
    req ← on_error (prefixed (codes "get feature request: ")) (repo.get_feature_request id viewer)
    pure req

-- cmd/server/main.go hands `pgRepo.NewRequestRepo(pool)` to the service.
abbrev pub postgres_requests : Pgx → Call → RequestRepo Db
postgres_requests pg c = record {
  insert_feature_request = insert_feature_request pg c;
  list_requests_by_new = list_requests Listing.new pg c;
  list_requests_by_top = list_requests Listing.top pg c;
  get_feature_request = get_feature_request pg c;
}
