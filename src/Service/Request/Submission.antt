-- ===== src/Service/Request/Submission.antt =====
-- Which submissions are stored, and what is read back.
use feature_voting_system.Prelude.{
  ℕ, ap, sym, ◌∙◌, ◌≡◌, refl, true, false, Bool, ◌&&◌, not, ◌∷◌, none, some, Bytes, codes, bytes_eq,
  ltb, length, arith, Bool-cases, inl, inr,
}
use mathlib.Core.Path.{subst}
use feature_voting_system.Errors.{
  Result, on_error-state, Sentinel, Error, error_is, prefixed, on_error, ok, err,
}
use feature_voting_system.Text.Space.{trim_space}
use feature_voting_system.Database.{Db, Pgx, Call}
use feature_voting_system.Database.Tables.{has_user, has_request}
use feature_voting_system.Database.Consistency.{IsConsistent}
use feature_voting_system.Postgres.Requests.{
  FeatureRequest, insert_feature_request, new_request, scan_row,
}
use feature_voting_system.Postgres.Requests.Store.{
  insert_feature_request-IsConsistent, insert_feature_request_new, get_feature_request_found,
  has_vote-fresh,
}
use feature_voting_system.Service.Request.{
  RequestRepo, invalid, too_long, max_title_len, max_description_len, submit, get_by_id,
  postgres_requests,
}

-- Not empty and of at most so many bytes.
abbrev pub fits_within : ℕ → Bytes → Bool
fits_within most s = not (bytes_eq s (codes "")) && not (ltb most (length s))

abbrev pub is_submittable : Bytes → Bytes → Bool
is_submittable title description =
    fits_within max_title_len (trim_space title)
    && fits_within max_description_len (trim_space description)

module _ {S : Type 0} (repo : RequestRepo S) (author title description : Bytes) (s : S) where
  pub submit_accepted :
      is_submittable title description ≡ true
      → submit repo author title description s
        ≡ on_error
            (prefixed (codes "insert feature request: "))
            (repo.insert_feature_request author (trim_space title) (trim_space description))
            s
  unfolding submit
  submit_accepted h = ground arith

  pub submit_refused :
      is_submittable title description ≡ false
      → (e : Error) × (error_is e Sentinel.validation ≡ true)
        × (submit repo author title description s ≡ (err e, s))
  unfolding submit
  submit_refused h = elim (Bool-cases (bytes_eq (trim_space title) (codes ""))) [
    | inl a ↦ (invalid (codes "title is required"), refl, ground arith)
    | inr a ↦ elim (Bool-cases (ltb 100 (length (trim_space title)))) [
      | inl b ↦ (too_long (codes "title") max_title_len, refl, ground arith)
      | inr b ↦ elim (Bool-cases (bytes_eq (trim_space description) (codes ""))) [
        | inl c ↦ (invalid (codes "description is required"), refl, ground arith)
        | inr c ↦ (too_long (codes "description") max_description_len, refl, ground arith)
      ]
    ]
  ]

-- A request that is submitted by a known user within the limits is what that user, and every
-- other one, reads under the id that the answer names: the trimmed texts, no votes, and not voted
-- on by the reader. The driver does not fail, and the generated id is new.
pub submit-get_by_id :
    (pg : Pgx) (c d : Call) (author title description viewer : Bytes) (a v : ℕ) (db : Db)
    → c.query_error ≡ none
    → d.query_error ≡ none
    → pg.parse_uuid author ≡ some a
    → pg.parse_uuid viewer ≡ some v
    → has_user a db.users ≡ true
    → has_request c.new_id db.requests ≡ false
    → IsConsistent db
    → is_submittable title description ≡ true
    → let stored =
        scan_row pg (new_request c a (trim_space title) (trim_space description)) false in
      let (out, db') = submit (postgres_requests pg c) author title description db in
      (out ≡ ok stored)
      × (get_by_id (postgres_requests pg d) stored.id viewer db' ≡ (ok stored, db'))
unfolding get_by_id
submit-get_by_id pg c d author title description viewer a v db sound sound' pa pv known fresh h
      within =
    let row = new_request c a (trim_space title) (trim_space description) in
    ground (
      arith,
      submit_accepted (postgres_requests pg c) author title description db within,
      insert_feature_request_new pg c author (trim_space title) (trim_space description) a db sound
          pa known fresh,
      has_vote-fresh db.users db.requests c.new_id v db.votes h.references fresh,
      get_feature_request_found pg d (pg.uuid_text c.new_id) viewer c.new_id v row
          (record db { requests = row ∷ db.requests }) sound' (pg.parse-text c.new_id) pv
          (ground arith),
    )

-- Whatever is submitted and however the driver behaves, consistent tables stay so: the counters
-- are the numbers of votes, and the keys hold.
pub submit-IsConsistent :
    (pg : Pgx) (c : Call) (author title description : Bytes) (db : Db)
    → IsConsistent db
    → IsConsistent (submit (postgres_requests pg c) author title description db).1
submit-IsConsistent pg c author title description db h =
    elim (Bool-cases (is_submittable title description)) [
      | inl within ↦
          subst IsConsistent
            (sym (
              ap (λ (o : Result FeatureRequest × Db). o.1)
                (submit_accepted (postgres_requests pg c) author title description db within)
              ∙ on_error-state (prefixed (codes "insert feature request: "))
                  (insert_feature_request pg c author (trim_space title) (trim_space description))
                  db))
            (insert_feature_request-IsConsistent pg c author (trim_space title)
              (trim_space description) db h)
      | inr beyond ↦
          let (e, kind, same) =
            submit_refused (postgres_requests pg c) author title description db beyond in
          rw same h
    ]
