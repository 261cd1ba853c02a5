-- ===== src/Service/Request/Page.antt =====
-- The page that `List` of internal/service/request.go makes of the rows that were fetched.
use mathlib.Core.Option
use feature_voting_system.Prelude.{
  ℕ, List, [], ◌∷◌, Option, none, some, Bytes, pos, ◌+ℤ◌, ltb, ltb_ℤ, leb_ℤ, ◌||◌, if◌then◌else◌,
  length, take,
}
use feature_voting_system.Cursor.{cursor_text}
use feature_voting_system.Text.Base64
use feature_voting_system.Text.Base64.{Alphabet}
use feature_voting_system.Postgres.Requests.{FeatureRequest, ListParams}
use feature_voting_system.Service.Page.{RequestPage}

-- `if params.Limit <= 0 || params.Limit > 100 { params.Limit = 20 }`
abbrev pub within_limit : ListParams → ListParams
within_limit params =
    if leb_ℤ params.limit (pos 0) || ltb_ℤ (pos 100) params.limit
    then record params { limit = pos 20 }
    else params

-- `fetchParams`, of parameters whose limit was replaced.
abbrev pub one_more : ListParams → ListParams
one_more params = record {
  sort = params.sort;
  cursor = params.cursor;
  limit = params.limit +ℤ pos 1;
  viewer_id = params.viewer_id;
}

-- `encodeCursor`
abbrev pub request_cursor : FeatureRequest → Bytes
request_cursor req = Base64.encode Alphabet.url (cursor_text req.id req.created_at req.vote_count)

-- `items[len(items)-1]`
abbrev pub last_item : List FeatureRequest → Option FeatureRequest
last_item [] = none
last_item (x ∷ []) = some x
last_item (x ∷ y ∷ xs) = last_item (y ∷ xs)

-- The page of a limit that is not negative.
abbrev pub request_page : ℕ → List FeatureRequest → RequestPage
request_page limit items =
    let kept = take limit items in
    if ltb limit (length items)
    then record { items = kept; next_cursor = Option.map request_cursor (last_item kept) }
    else record { items = items; next_cursor = none }
