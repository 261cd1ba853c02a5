-- ===== src/Handler/Requests/Status.antt =====
-- The answers of the request handlers.
use feature_voting_system.Prelude.{
  ℕ, none, Option-cases, if◌then◌else◌, ◌≡◌, ◌↔◌, refl, false, none, some, Bytes, codes, arith,
  bytes_eq, bytes_eq_iff, Bool-cases, inl, inr, ℤ, pos, pos_part, ap, ◌∙◌, sym, Option, ◌≤ℤ◌,
}
use mathlib.Core.Bool.{false≢true}
use feature_voting_system.Errors.{Sentinel, Error, error_is, ok, err, Result-cases}
use feature_voting_system.Text.Space.{trim_space}
use feature_voting_system.Text.Decimal.{parse_int}
use feature_voting_system.Http.{Request}
use feature_voting_system.Service.Page.{RequestPage, page_limit}
use feature_voting_system.Service.Ranking
use feature_voting_system.Service.Ranking.{RankingRepo}
use feature_voting_system.Service.Request.{RequestRepo}
use feature_voting_system.Service.Request.Submission.{
  is_submittable, submit_accepted, submit_refused,
}
use feature_voting_system.Database.{Db, Pgx, Call}
use feature_voting_system.Database.Tables.{find_request, has_request}
use feature_voting_system.Database.Consistency.{has_request-none, has_request-some}
use feature_voting_system.Postgres.Requests.{get_feature_request}
use feature_voting_system.Service.Request
use feature_voting_system.Service.Request.{postgres_requests}
use feature_voting_system.Handler.Votes.Status.{IsSignedIn}
use feature_voting_system.Handler.Requests.{
  Digest, compute_etag, quoted, limit_of, limit_read, params_of, submit, get_by_id, list,
}

limit_read-bounds : (o : Option ℤ) → (pos 1 ≤ℤ limit_read o) × (limit_read o ≤ℤ pos 100)
limit_read-bounds none = ground arith
limit_read-bounds (some n) = ground arith

-- Whatever the query holds, a page is asked for of 1 to 100 requests, so that the service does not
-- replace the limit.
pub limit_of-bounds :
    (q : Bytes)
    → (pos 1 ≤ℤ limit_of q)
      × (limit_of q ≤ℤ pos 100)
      × (page_limit (limit_of q) ≡ pos_part (limit_of q))
limit_of-bounds q = elim (Bool-cases (bytes_eq q (codes ""))) [
  | inl empty ↦ ground arith
  | inr there ↦ ground (arith, limit_read-bounds (parse_int 64 q))
]

quoted-ne_nil : (tag : Bytes) → bytes_eq (quoted tag) (codes "") ≡ false
unfolding bytes_eq
quoted-ne_nil tag = refl

module _ {S : Type 0} (repo : RequestRepo S) (r : Request) (s : S) where
  -- A submission by a user who is signed in, with a JSON body, is answered by 400 exactly when the
  -- trimmed title is empty or longer than 100 bytes, or the trimmed description is empty or longer
  -- than 5000 bytes, and then nothing is stored. The repository's own errors are not validation
  -- errors.
  pub submit_status :
      (user : Bytes) (form : Bytes → Bytes)
      → IsSignedIn r user
      → r.form ≡ some form
      → ((a t d : Bytes) (e : Error)
          → (repo.insert_feature_request a t d s).0 ≡ err e
          → error_is e Sentinel.validation ≡ false)
      → (((submit repo r s).0.status ≡ 400)
          ↔ (is_submittable (form (codes "title")) (form (codes "description")) ≡ false))
        × ((submit repo r s).0.status ≡ 400 → (submit repo r s).1 ≡ s)
  unfolding submit
  submit_status user form signed body foreign =
      elim (Bool-cases (is_submittable (form (codes "title")) (form (codes "description")))) [
        | inr beyond ↦
            let (e, kind, same) =
              submit_refused repo user (form (codes "title")) (form (codes "description")) s
                beyond in
            ground (arith, same, kind)
        | inl within ↦
            elim (Result-cases
              (repo.insert_feature_request user (trim_space (form (codes "title")))
                (trim_space (form (codes "description"))) s).0) [
                  | inl (fr, stored) ↦ ground (
                    arith,
                    submit_accepted repo user (form (codes "title")) (form (codes "description")) s
                        within,
                  )
                  | inr (e, failed) ↦ ground (
                    arith,
                    submit_accepted repo user (form (codes "title")) (form (codes "description")) s
                        within,
                    foreign user (trim_space (form (codes "title")))
                        (trim_space (form (codes "description"))) e failed,
                  )
                ]
      ]

module _ {S : Type 0} (r : Request) (s : S) where
  -- Where the listing succeeds, 304 is answered exactly when `If-None-Match` is the quoted tag of
  -- the page that was listed.
  pub list_status :
      (digest : Digest) (ranking : RankingRepo S) (page : RequestPage) (s' : S)
      → Ranking.list ranking (params_of r) s ≡ (ok page, s')
      → ((list digest ranking r s).0.status ≡ 304)
        ↔ (r.header (codes "If-None-Match") ≡ quoted (compute_etag digest page))
  unfolding list
  list_status digest ranking page s' got =
      let tag = quoted (compute_etag digest page) in
      elim (Bool-cases (bytes_eq (r.header (codes "If-None-Match")) tag)) [
        | inl same ↦
            let e = (bytes_eq_iff (r.header (codes "If-None-Match")) tag).0 same in
            let there =
              ap (λ m. bytes_eq m (codes "")) e ∙ quoted-ne_nil (compute_etag digest page) in
            (λ _. e, λ _. ground (arith, got, there))
        | inr other ↦ (
          (λ h. absurd (ground (arith, got))),
          λ e.
              absurd (
                false≢true (sym other ∙ (bytes_eq_iff (r.header (codes "If-None-Match")) tag).1 e)),
        )
      ]

-- Where the driver does not fail and both ids are UUIDs, `GET /requests/{id}` is answered by 200
-- for a request that there is, and by 404 for one that there is not; nothing is written.
pub get_by_id_status :
    (pg : Pgx) (c : Call) (r : Request) (user : Bytes) (i v : ℕ) (db : Db)
    → c.query_error ≡ none
    → IsSignedIn r user
    → pg.parse_uuid r.path_id ≡ some i
    → pg.parse_uuid user ≡ some v
    → let out = get_by_id (postgres_requests pg c) r db in
      (out.0.status ≡ (if has_request i db.requests then 200 else 404)) × (out.1 ≡ db)
unfolding get_by_id Request.get_by_id get_feature_request
get_by_id_status pg c r user i v db sound signed pi pv =
    elim (Option-cases (find_request i db.requests)) [
      | inl missing ↦ ground (arith, has_request-none i db.requests missing)
      | inr (row, found) ↦ ground (arith, has_request-some i db.requests {row = row} found)
    ]
