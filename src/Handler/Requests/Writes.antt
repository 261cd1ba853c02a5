-- ===== src/Handler/Requests/Writes.antt =====
-- What the handlers of feature requests write.
use feature_voting_system.Prelude.{
  ◌≡◌, refl, ◌∙◌, ap, ◌⊎◌, inl, inr, Bytes, codes, arith, Bool-cases, Option-cases,
}
use feature_voting_system.Errors.{prefixed, Result, ok, err, Result-cases, on_error-state}
use feature_voting_system.Text.Space.{trim_space}
use feature_voting_system.Http.{Request, get_user_id}
use feature_voting_system.Postgres.Requests.{FeatureRequest, ListParams}
use feature_voting_system.Service.Page.{RequestPage, fetch_params}
use feature_voting_system.Service.Request
use feature_voting_system.Service.Request.{RequestRepo}
use feature_voting_system.Service.Request.Submission.{
  is_submittable, submit_accepted, submit_refused,
}
use feature_voting_system.Service.Ranking
use feature_voting_system.Service.Ranking.{RankingRepo, fetch}
use feature_voting_system.Handler.Requests.{
  Digest, params_of, submitted, retrieved, listed, submit, list, get_by_id,
}

module _ {S : Type 0} where
  submitted-state : (out : Result FeatureRequest × S) → (submitted out).1 ≡ out.1
  submitted-state (ok v, s) = refl
  submitted-state (err e, s) = refl

  retrieved-state : (out : Result FeatureRequest × S) → (retrieved out).1 ≡ out.1
  retrieved-state (ok v, s) = refl
  retrieved-state (err e, s) = refl

  listed-state :
      (digest : Digest) (m : Bytes) (out : Result RequestPage × S) → (listed digest m out).1 ≡ out.1
  listed-state digest m (ok v, s) = refl
  listed-state digest m (err e, s) = refl

module _ {S : Type 0} (repo : RequestRepo S) (r : Request) (s : S) where
  service_submit-writes :
      (author title description : Bytes)
      → ((Request.submit repo author title description s).1 ≡ s)
        ⊎ ((Request.submit repo author title description s).1
            ≡ (repo.insert_feature_request author (trim_space title) (trim_space description) s).1)
  service_submit-writes author title description =
      elim (Bool-cases (is_submittable title description)) [
        | inl within ↦ inr (
            ap (λ o. o.1) (submit_accepted repo author title description s within)
            ∙ on_error-state (prefixed (codes "insert feature request: "))
                (repo.insert_feature_request author (trim_space title) (trim_space description)) s)
        | inr beyond ↦
            let (e, kind, same) = submit_refused repo author title description s beyond in
            inl (ap (λ o. o.1) same)
      ]

  -- Nothing, or one call of `InsertFeatureRequest`.
  pub submit-writes :
      ((submit repo r s).1 ≡ s)
      ⊎ ((author title description : Bytes) × ((submit repo r s).1
            ≡ (repo.insert_feature_request author title description s).1))
  unfolding submit
  submit-writes = elim (Bool-cases (get_user_id r.context_user).1) [
    | inr anonymous ↦ inl (ground (arith, anonymous))
    | inl present ↦ elim (Option-cases r.form) [
      | inl unread ↦ inl (ground (arith, present, unread))
      | inr (f, read) ↦
          let user = (get_user_id r.context_user).0 in
          let title = f (codes "title") in
          let description = f (codes "description") in
          let served : (submit repo r s).1 ≡ (Request.submit repo user title description s).1 =
            rw (present, read) (submitted-state (Request.submit repo user title description s)) in
          elim (service_submit-writes user title description) [
            | inl same ↦ inl (served ∙ same)
            | inr wrote ↦ inr (user, trim_space title, trim_space description, served ∙ wrote)
          ]
    ]
  ]

  -- A reading writes nothing where the query writes nothing.
  pub get_by_id-pure :
      ((id viewer : Bytes) → (repo.get_feature_request id viewer s).1 ≡ s)
      → (get_by_id repo r s).1 ≡ s
  unfolding get_by_id Request.get_by_id
  get_by_id-pure pure = retrieved-state (Request.get_by_id repo r.path_id viewer s) ∙ service
    where
      viewer : Bytes
      viewer = (get_user_id r.context_user).0

      service : (Request.get_by_id repo r.path_id viewer s).1 ≡ s
      service =
          unfold Request.get_by_id in
          elim (Result-cases (repo.get_feature_request r.path_id viewer s).0) [
            | inr (e, failed) ↦ ground (arith, failed, pure r.path_id viewer)
            | inl (q, found) ↦ ground (arith, found, pure r.path_id viewer)
          ]

module _ {S : Type 0} (digest : Digest) (repo : RankingRepo S) (r : Request) (s : S) where
  pub list-pure :
      ((sort : Bytes) (params : ListParams) → (fetch repo sort params s).1 ≡ s)
      → (list digest repo r s).1 ≡ s
  unfolding list Ranking.list
  list-pure pure =
      listed-state digest (r.header (codes "If-None-Match")) (Ranking.list repo (params_of r) s)
      ∙ service
    where
      params : ListParams
      params = fetch_params (params_of r)

      service : (Ranking.list repo (params_of r) s).1 ≡ s
      service =
          unfold Ranking.list in
          elim (Result-cases (fetch repo (params_of r).sort params s).0) [
            | inr (e, failed) ↦ ground (arith, failed, pure (params_of r).sort params)
            | inl (q, found) ↦ ground (arith, found, pure (params_of r).sort params)
          ]
