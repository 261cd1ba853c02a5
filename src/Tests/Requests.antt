-- ===== src/Tests/Requests.antt =====
-- Requests that are submitted, listed and read.
use feature_voting_system.Prelude.{
  List, ℕ, ◌≡◌, ◌↔◌, refl, true, false, [], none, some, Bytes, codes, pos, arith, bytes_eq,
  if◌then◌else◌,
}
use feature_voting_system.Errors.{ok, pure}
use feature_voting_system.Text.Space.{trim_space}
use feature_voting_system.Cursor.{decoded, encode_cursor, decode_cursor}
use feature_voting_system.Cursor.RoundTrip.{decode-encode_cursor}
use feature_voting_system.Http.{Request}
use feature_voting_system.Postgres.Requests.{
  ListParams, new_request, scan_row, scan_rows, Listing, order_by,
}
use feature_voting_system.Service.Page.{RequestPage, page_of}
use feature_voting_system.Service.Ranking
use feature_voting_system.Service.Ranking.{RankingRepo, postgres_ranking}
use feature_voting_system.Database.{RequestRow}
use mathlib.Core.List.{Perm}
use feature_voting_system.Postgres.Requests.Order.{IsDescending}
use feature_voting_system.Service.Ranking.Client.{walk, listing_of}
use feature_voting_system.Service.Ranking.Walk.{walk-IsDescending}
use feature_voting_system.Service.Ranking.Equivalence.{list_iff}
use feature_voting_system.Service.Request
use feature_voting_system.Service.Request.{postgres_requests, submit, get_by_id}
use feature_voting_system.Service.Request.Submission.{is_submittable, submit-get_by_id}
use feature_voting_system.Handler.Requests
use feature_voting_system.Handler.Requests.{Digest, quoted, compute_etag, limit_of, params_of}
use feature_voting_system.Handler.Requests.Status.{submit_status}
use feature_voting_system.Postgres.Requests.Store.{insert_feature_request-foreign}
use feature_voting_system.Tests.Data.{unary, pgx, call, db, db-IsConsistent, vote_request}

abbrev first_page : ListParams
first_page = record { sort = codes "top"; cursor = none; limit = pos 1; viewer_id = unary 2 }

walk-IsDescending_example :
    (rows : List RequestRow) × (walk (postgres_ranking pgx call) 3 first_page db
      ≡ (ok (scan_rows pgx 2 db.votes rows), db))
    × Perm rows db.requests
    × IsDescending (listing_of (codes "top")) rows
walk-IsDescending_example =
    walk-IsDescending pgx call 2 db refl refl db-IsConsistent.request_ids (ground arith) first_page
      refl refl

-- One request, and a cursor to the other one.
abbrev one_request : RequestPage
one_request = page_of 1 (scan_rows pgx 2 db.votes (order_by Listing.top db.requests))

list_iff_example :
    (Ranking.list (postgres_ranking pgx call) first_page db ≡ (ok one_request, db))
    ↔ (Request.list (postgres_requests pgx call) first_page db ≡ (ok one_request, db))
list_iff_example = list_iff pgx call first_page one_request db db

title_fits : is_submittable (codes " Offline mode ") (codes "On trains") ≡ true
unfolding trim_space bytes_eq
title_fits = refl

submit-get_by_id_example :
    let stored =
      scan_row pgx
        (new_request call 3 (trim_space (codes " Offline mode ")) (trim_space (codes "On trains")))
        false in
    let (out, db') =
      submit
        (postgres_requests pgx call)
        (unary 3)
        (codes " Offline mode ")
        (codes "On trains")
        db in
    (out ≡ ok stored)
    × (get_by_id (postgres_requests pgx call) stored.id (unary 1) db' ≡ (ok stored, db'))
submit-get_by_id_example =
    submit-get_by_id pgx call call (unary 3) (codes " Offline mode ") (codes "On trains") (unary 1)
      3 1 db refl refl refl refl refl refl db-IsConsistent title_fits

-- A form whose title is blank.
abbrev blank_form : Bytes → Bytes
blank_form name = if bytes_eq name (codes "title") then codes "  " else codes "On trains"

abbrev blank_request : Request
blank_request = record (vote_request 1 10) { form = some blank_form }

submit_status_example :
    let out = Requests.submit (postgres_requests pgx call) blank_request db in
    ((out.0.status ≡ 400)
      ↔ (is_submittable (blank_form (codes "title")) (blank_form (codes "description")) ≡ false))
    × (out.0.status ≡ 400 → out.1 ≡ db)
submit_status_example =
    submit_status (postgres_requests pgx call) blank_request db (unary 1) blank_form
      (refl, unfold bytes_eq in refl) refl
      (λ a t d e. insert_feature_request-foreign pgx call a t d db e)

abbrev page : RequestPage
page = record { items = []; next_cursor = none }

abbrev empty_ranking : RankingRepo ℕ
empty_ranking = record {
  list_requests_by_top = λ _. pure [];
  list_requests_by_trending = λ _. pure [];
  list_requests_by_new = λ _. pure [];
}

-- A client that polls with the tag that it has.
abbrev polling : Request
polling = record (vote_request 1 10) { header = λ _. codes "\"0123456789abcdef\"" }

empty_page : Ranking.list empty_ranking (params_of polling) 0 ≡ (ok page, 0)
unfolding Ranking.list bytes_eq
empty_page = refl

decode-encode_cursor_example :
    decode_cursor (encode_cursor (codes "3f-a0") (pos 1700000000) (pos 12))
    ≡ decoded (record { id = codes "3f-a0"; created_at = pos 1700000000; vote_count = pos 12 })
decode-encode_cursor_example =
    decode-encode_cursor (codes "3f-a0") (pos 1700000000) (pos 12) (ground arith) (ground arith)
      (ground arith) (ground arith)
