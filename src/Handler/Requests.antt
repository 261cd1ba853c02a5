-- ===== src/Handler/Requests.antt =====
-- `RequestsHandler` of internal/handler/requests.go.
pub mod Status
pub mod Writes
use feature_voting_system.Prelude.{
  ◌++◌, Bool, ◌&&◌, not, [], ◌∷◌, Option, none, some, Bytes, codes, ℤ, pos, ltb_ℤ, leb_ℤ, bytes_eq,
  if◌then◌else◌, take,
}
use feature_voting_system.Errors.{Sentinel, Error, error_text, error_is, Result, ok, err}
use feature_voting_system.Text.Decimal.{parse_int}
use feature_voting_system.Http.{
  Request, Response, Body, value, empty, json_header, write_json, write_error, get_user_id,
}
use feature_voting_system.Postgres.Requests.{FeatureRequest, ListParams}
use feature_voting_system.Service.Page.{RequestPage}
use feature_voting_system.Service.Ranking
use feature_voting_system.Service.Ranking.{RankingRepo}
use feature_voting_system.Service.Request
use feature_voting_system.Service.Request.{RequestRepo}

-- The encoders of the standard library that the ETag is made with: the hexadecimal digits of
-- `sha256.Sum256`, and `json.Marshal` of a page.
pub record Digest : Type 0 where
  pub sha256_hex : Bytes → Bytes
  pub marshal : RequestPage → Bytes

-- `computeETag`
abbrev pub compute_etag : Digest → RequestPage → Bytes
compute_etag digest page = take 16 (digest.sha256_hex (digest.marshal page))

abbrev pub quoted : Bytes → Bytes
quoted tag = b'"' ∷ (tag ++ codes "\"")

-- The query parameters of `List`, with their defaults.
abbrev pub sort_of : Bytes → Bytes
sort_of q = if bytes_eq q (codes "") then codes "new" else q

abbrev limit_read : Option ℤ → ℤ
limit_read none = pos 20
limit_read (some n) = if ltb_ℤ (pos 0) n && leb_ℤ n (pos 100) then n else pos 20

-- `strconv.Atoi` reads an int of 64 bits.
abbrev pub limit_of : Bytes → ℤ
limit_of q = if bytes_eq q (codes "") then pos 20 else limit_read (parse_int 64 q)

abbrev pub cursor_of : Bytes → Option Bytes
cursor_of q = if bytes_eq q (codes "") then none else some q

abbrev pub params_of : Request → ListParams
params_of r = record {
  sort = sort_of (r.query (codes "sort"));
  cursor = cursor_of (r.query (codes "cursor"));
  limit = limit_of (r.query (codes "limit"));
  viewer_id = (get_user_id r.context_user).0;
}

abbrev submit_error : Error → Response (Body FeatureRequest)
submit_error e =
    if error_is e Sentinel.validation
    then write_error 400 (codes "validation_failed") (error_text e)
    else write_error 500 (codes "internal_error") (codes "submission failed")

abbrev get_error : Error → Response (Body FeatureRequest)
get_error e =
    if error_is e Sentinel.not_found
    then write_error 404 (codes "not_found") (codes "feature request not found")
    else write_error 500 (codes "internal_error") (codes "retrieval failed")

abbrev submitted : {S : Type 0} → Result FeatureRequest × S → Response (Body FeatureRequest) × S
submitted (ok fr, s) = (write_json 201 (value fr), s)
submitted (err e, s) = (submit_error e, s)

abbrev retrieved : {S : Type 0} → Result FeatureRequest × S → Response (Body FeatureRequest) × S
retrieved (ok fr, s) = (write_json 200 (value fr), s)
retrieved (err e, s) = (get_error e, s)

module _ {S : Type 0} (repo : RequestRepo S) where
  pub submit : Request → S → Response (Body FeatureRequest) × S
  submit r s =
      let (user, present) = get_user_id r.context_user in
      if not present
      then (write_error 401 (codes "unauthorized") (codes "authentication required"), s)
      else elim r.form [
        | none ↦ (write_error 400 (codes "invalid_request") (codes "invalid JSON body"), s)
        | some f ↦
            submitted (Request.submit repo user (f (codes "title")) (f (codes "description")) s)
      ]

  pub get_by_id : Request → S → Response (Body FeatureRequest) × S
  get_by_id r s = retrieved (Request.get_by_id repo r.path_id (get_user_id r.context_user).0 s)

module _ (digest : Digest) where
  abbrev cache_headers : RequestPage → Response (Body RequestPage) → Response (Body RequestPage)
  cache_headers page out = record out {
    headers =
        (codes "ETag", quoted (compute_etag digest page))
        ∷ (codes "Cache-Control", codes "private, max-age=0, must-revalidate")
        ∷ out.headers;
  }

  abbrev not_modified : Response (Body RequestPage)
  not_modified = record { status = 304; headers = []; body = empty }

  -- The answer to a page, for what `If-None-Match` holds.
  abbrev pub answer_page : Bytes → RequestPage → Response (Body RequestPage)
  answer_page match page = cache_headers page (
      if not (bytes_eq match (codes "")) && bytes_eq match (quoted (compute_etag digest page))
      then not_modified
      else write_json 200 (value page))

  abbrev listed : {S : Type 0} → Bytes → Result RequestPage × S → Response (Body RequestPage) × S
  listed match (ok page, s) = (answer_page match page, s)
  listed match (err e, s) = (write_error 500 (codes "internal_error") (codes "listing failed"), s)

  pub list : {S : Type 0} → RankingRepo S → Request → S → Response (Body RequestPage) × S
  list repo r s = listed (r.header (codes "If-None-Match")) (Ranking.list repo (params_of r) s)
