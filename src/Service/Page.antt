-- ===== src/Service/Page.antt =====
-- `RequestPage` of internal/service/request.go, and the page that `List` of
-- internal/service/ranking.go makes of the rows that were fetched.
use feature_voting_system.Prelude.{
  ℕ, suc, List, [], ◌∷◌, Option, none, some, Bytes, ℤ, pos, pos_part, ltb, ltb_ℤ, leb_ℤ, ◌||◌,
  if◌then◌else◌, length, take,
}
use feature_voting_system.Cursor.{cursor_text}
use feature_voting_system.Text.Base64
use feature_voting_system.Text.Base64.{Alphabet}
use feature_voting_system.Postgres.Requests.{FeatureRequest, ListParams}

pub record RequestPage : Type 0 where
  pub items : List FeatureRequest
  pub next_cursor : Option Bytes

-- `if params.Limit <= 0 || params.Limit > 100 { params.Limit = 20 }`
abbrev pub page_limit : ℤ → ℕ
page_limit l = if leb_ℤ l (pos 0) || ltb_ℤ (pos 100) l then 20 else pos_part l

-- One row more than the page holds.
abbrev pub fetch_params : ListParams → ListParams
fetch_params p = record {
  sort = p.sort;
  cursor = p.cursor;
  limit = pos (suc (page_limit p.limit));
  viewer_id = p.viewer_id;
}

-- `raw` and `cursor` of `List`.
abbrev pub ranking_cursor : FeatureRequest → Bytes
ranking_cursor r = Base64.encode Alphabet.url (cursor_text r.id r.created_at r.vote_count)

-- The cursor of `items[len(items)-1]`.
abbrev pub last_cursor : List FeatureRequest → Option Bytes
last_cursor [] = none
last_cursor (r ∷ []) = some (ranking_cursor r)
last_cursor (r ∷ q ∷ rs) = last_cursor (q ∷ rs)

abbrev pub page_of : ℕ → List FeatureRequest → RequestPage
page_of limit items =
    if ltb limit (length items)
    then record { items = take limit items; next_cursor = last_cursor (take limit items) }
    else record { items = items; next_cursor = none }
