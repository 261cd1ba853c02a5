-- ===== src/Service/Ranking/Equivalence.antt =====
-- `List` of internal/service/ranking.go against `List` of internal/service/request.go.
use mathlib.Core.Option
use mathlib.Core.Path.{subst}
use feature_voting_system.Prelude.{
  ℕ, ◌≡◌, ◌↔◌, List, [], ◌∷◌, arith, inl, inr, refl, ap, ◌∙◌, ℤ, pos, pos_part, ◌+ℤ◌, leb_ℤ, ltb_ℤ,
  ◌||◌, ltb, length, take, Bool-cases, sym, Bytes, codes,
}
use feature_voting_system.Errors.{
  prefixed, Result, Error, ok, Action, pure, on_error, ◌>>=◌, Result-cases,
}
use feature_voting_system.Database.{Db, Pgx, Call}
use feature_voting_system.Postgres.Requests.{FeatureRequest, ListParams, list_requests_by_trending}
use feature_voting_system.Service.Page.{RequestPage, page_limit, page_of, fetch_params, last_cursor}
use feature_voting_system.Service.Request.Page.{
  within_limit, one_more, request_cursor, last_item, request_page,
}
use feature_voting_system.Service.Ranking
use feature_voting_system.Service.Ranking.{postgres_ranking}
use feature_voting_system.Service.Request
use feature_voting_system.Service.Request.{postgres_requests}

-- The two ways to the last cursor.
last_cursor-last_item :
    (items : List FeatureRequest) → last_cursor items ≡ Option.map request_cursor (last_item items)
last_cursor-last_item [] = refl
last_cursor-last_item (x ∷ []) = refl
last_cursor-last_item (x ∷ y ∷ items) = last_cursor-last_item (y ∷ items)

page_of-request_page :
    (limit : ℕ) (items : List FeatureRequest) → page_of limit items ≡ request_page limit items
page_of-request_page limit items = elim (Bool-cases (ltb limit (length items))) [
  | inl more ↦ rw more (
      ap (λ c. record { items = take limit items; next_cursor = c })
        (last_cursor-last_item (take limit items)))
  | inr all ↦ rw all refl
]

-- The two ways to the limit and to what is fetched.
within_limit-page_limit :
    (p : ListParams)
    → (pos_part (within_limit p).limit ≡ page_limit p.limit)
      × (one_more (within_limit p) ≡ fetch_params p)
      × ((within_limit p).sort ≡ p.sort)
unfolding ◌+ℤ◌
within_limit-page_limit p = elim (Bool-cases (leb_ℤ p.limit (pos 0) || ltb_ℤ (pos 100) p.limit)) [
  | inl replaced ↦ (rw replaced refl, rw replaced refl, rw replaced refl)
  | inr kept ↦
      let fits : p.limit ≡ pos (pos_part p.limit) = ground (arith, kept) in
      (
        rw kept refl,
        rw kept (
            ap
              (λ (l : ℤ). record {
                sort = p.sort;
                cursor = p.cursor;
                limit = l;
                viewer_id = p.viewer_id;
              })
              (ap (λ l. l +ℤ pos 1) fits ∙ ground arith)),
        rw kept refl,
      )
]

-- How an error is worded decides no page.
page_iff :
    {S : Type 0} (m : Action S (List FeatureRequest)) (f g : Error → Error)
    (p q : List FeatureRequest → RequestPage) (page : RequestPage) (s s' : S)
    → ((items : List FeatureRequest) → p items ≡ q items)
    → ((on_error f m >>= λ items. pure (p items)) s ≡ (ok page, s'))
      ↔ ((on_error g m >>= λ items. pure (q items)) s ≡ (ok page, s'))
page_iff m f g p q page s s' same = elim (Result-cases (m s).0) [
  | inl (items, found) ↦ ground (arith, same items)
  | inr (e, failed) ↦ ground arith
]

-- Over PostgreSQL the two services list the same: one returns a page exactly when the other does,
-- the same one, whatever the parameters are and however the driver behaves. They make their limits,
-- pages and cursors each in its own way.
pub list_iff :
    (pg : Pgx) (c : Call) (params : ListParams) (page : RequestPage) (db db' : Db)
    → (Ranking.list (postgres_ranking pg c) params db ≡ (ok page, db'))
      ↔ (Request.list (postgres_requests pg c) params db ≡ (ok page, db'))
unfolding Ranking.list Request.list list_requests_by_trending
list_iff pg c params page db db' =
    let (limit, fetched, sort) = within_limit-page_limit params in
    let given = within_limit params in
    let made : Bytes → ListParams → ℕ → Result RequestPage × Db = λ by p n.
      ((on_error (prefixed (codes "list requests: ")) (Request.fetch (postgres_requests pg c) by p)
          >>= λ items. pure (request_page n items))
        db) in
    let same : Request.list (postgres_requests pg c) params db
        ≡ made params.sort (fetch_params params) (page_limit params.limit) =
      ap (λ by. made by (one_more given) (pos_part given.limit)) sort
      ∙ (ap (λ p. made params.sort p (pos_part given.limit)) fetched
          ∙ ap (λ n. made params.sort (fetch_params params) n) limit) in
    subst
      (λ out.
        (Ranking.list (postgres_ranking pg c) params db ≡ (ok page, db')) ↔ (out ≡ (ok page, db')))
      (sym same)
      (page_iff (Ranking.fetch (postgres_ranking pg c) params.sort (fetch_params params)) _ _
        (page_of (page_limit params.limit)) (request_page (page_limit params.limit)) page db db'
        (page_of-request_page (page_limit params.limit)))
