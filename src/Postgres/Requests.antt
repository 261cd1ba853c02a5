-- ===== src/Postgres/Requests.antt =====
-- `RequestRepo` of internal/repository/postgres/requests.go.
pub mod Order
pub mod Members
pub mod After
pub mod Store
use feature_voting_system.Prelude.{
  ℕ, Bool, true, false, ◌&&◌, ◌||◌, List, [], ◌∷◌, Option, none, some, Bytes, codes, ℤ, pos,
  pos_part, ltb, ltb_ℤ, eqb_ℤ, bytes_eq, if◌then◌else◌, take, map,
}
use feature_voting_system.Errors.{Sentinel, sentinel, plain, prefixed, Result, ok, err, Action}
use feature_voting_system.Cursor.{CursorData, Decoded, decoded, refused, decode_cursor}
use feature_voting_system.Database.{RequestRow, Vote, Db, Pgx, Call}
use feature_voting_system.Database.Driver.{unique_violation}
use feature_voting_system.Database.Tables.{find_request, has_request, has_user, has_vote}

-- `service.FeatureRequest`; a time is its nanoseconds since 1970.
pub record FeatureRequest : Type 0 where
  pub id : Bytes
  pub author_id : Bytes
  pub title : Bytes
  pub description : Bytes
  pub vote_count : ℤ
  pub created_at : ℤ
  pub updated_at : ℤ
  pub viewer_has_voted : Bool

-- `service.ListParams`
pub record ListParams : Type 0 where
  pub sort : Bytes
  pub cursor : Option Bytes
  pub limit : ℤ
  pub viewer_id : Bytes

-- What `scanRequest` and `scanRequestWithVote` make of a row.
abbrev pub scan_row : Pgx → RequestRow → Bool → FeatureRequest
scan_row pg r voted = record {
  id = pg.uuid_text r.id;
  author_id = pg.uuid_text r.author_id;
  title = r.title;
  description = r.description;
  vote_count = r.vote_count;
  created_at = pg.decode_time r.created_at;
  updated_at = pg.decode_time r.updated_at;
  viewer_has_voted = voted;
}

abbrev pub scan_error : Bytes → Result FeatureRequest
scan_error m = err (prefixed (codes "scan request: ") (plain m))

abbrev pub new_request : Call → ℕ → Bytes → Bytes → RequestRow
new_request c author title description = record {
  id = c.new_id;
  author_id = author;
  title = title;
  description = description;
  vote_count = pos 0;
  created_at = c.now;
  updated_at = c.now;
}

-- `INSERT INTO feature_requests (author_id, title, description) VALUES ($1, $2, $3) RETURNING …`
abbrev pub insert_row : Pgx → Call → RequestRow → Db → Result FeatureRequest × Db
insert_row pg c row db =
    if has_request row.id db.requests
    then (scan_error (unique_violation pg), db)
    else if has_user row.author_id db.users
    then (ok (scan_row pg row false), record db { requests = row ∷ db.requests })
    else (scan_error pg.foreign_key_violation, db)

unfoldable pub insert_feature_request :
    Pgx → Call → Bytes → Bytes → Bytes → Action Db FeatureRequest
insert_feature_request pg c author title description db = elim c.query_error [
  | some m ↦ (scan_error m, db)
  | none ↦ elim (pg.parse_uuid author) [
    | none ↦ (scan_error pg.invalid_uuid, db)
    | some a ↦ insert_row pg c (new_request c a title description) db
  ]
]

abbrev scan_found : Pgx → ℕ → List Vote → Option RequestRow → Result FeatureRequest
scan_found pg viewer votes none = err (sentinel Sentinel.not_found)
scan_found pg viewer votes (some r) = ok (scan_row pg r (has_vote viewer r.id votes))

abbrev select_request : Pgx → Bytes → Bytes → Db → Result FeatureRequest
select_request pg id viewer db = elim (pg.parse_uuid id) [
  | none ↦ scan_error pg.invalid_uuid
  | some i ↦ elim (pg.parse_uuid viewer) [
    | none ↦ scan_error pg.invalid_uuid
    | some v ↦ scan_found pg v db.votes (find_request i db.requests)
  ]
]

unfoldable pub get_feature_request : Pgx → Call → Bytes → Bytes → Action Db FeatureRequest
get_feature_request pg c id viewer db = elim c.query_error [
  | some m ↦ (scan_error m, db)
  | none ↦ (select_request pg id viewer db, db)
]

-- `(created_at, id) < (t, i)`
abbrev pub before_new : ℤ → ℕ → ℤ → ℕ → Bool
before_new t i t' i' = ltb_ℤ t t' || (eqb_ℤ t t' && ltb i i')

-- `(vote_count, created_at, id) < (n, t, i)`
abbrev pub before_top : ℤ → ℤ → ℕ → ℤ → ℤ → ℕ → Bool
before_top n t i n' t' i' = ltb_ℤ n n' || (eqb_ℤ n n' && before_new t i t' i')

-- The two orders of the listings, on rows.
pub data Listing : Type 0 where
  new top : Listing

abbrev pub less : Listing → RequestRow → RequestRow → Bool
less Listing.new a b = before_new a.created_at a.id b.created_at b.id
less Listing.top a b = before_top a.vote_count a.created_at a.id b.vote_count b.created_at b.id

-- The row comparison of the `WHERE` clause, with the cursor's parameters.
abbrev pub below_cursor : Pgx → Listing → CursorData → ℕ → RequestRow → Bool
below_cursor pg Listing.new cur i r = before_new r.created_at r.id (pg.encode_time cur.created_at) i
below_cursor pg Listing.top cur i r =
    before_top r.vote_count r.created_at r.id cur.vote_count (pg.encode_time cur.created_at) i

-- A query without a `WHERE`, one with it, or one whose parameter cannot be encoded.
pub data Where : Type 0 where
  everything : Where
  only : (RequestRow → Bool) → Where
  unreadable : Where

abbrev where_id : Pgx → Listing → CursorData → Option ℕ → Where
where_id pg l cur none = unreadable
where_id pg l cur (some i) = only (below_cursor pg l cur i)

-- `decodeCursorRaw`, line for line the code of `DecodeCursor`.
abbrev pub decode_cursor_raw : Bytes → Decoded
decode_cursor_raw encoded = decode_cursor encoded

-- A cursor that cannot be decoded is passed over.
abbrev where_decoded : Pgx → Listing → Decoded → Where
where_decoded pg l (refused e) = everything
where_decoded pg l (decoded cur) = where_id pg l cur (pg.parse_uuid cur.id)

abbrev pub where_cursor : Pgx → Listing → Option Bytes → Where
where_cursor pg l none = everything
where_cursor pg l (some s) =
    if bytes_eq s (codes "") then everything else where_decoded pg l (decode_cursor_raw s)

unfoldable pub filter : (RequestRow → Bool) → List RequestRow → List RequestRow
filter p [] = []
filter p (r ∷ rs) = let rest = filter p rs in if p r then r ∷ rest else rest

-- `ORDER BY … DESC` by insertion.
pub insert : Listing → RequestRow → List RequestRow → List RequestRow
insert l a [] = a ∷ []
insert l a (b ∷ rs) = let rest = insert l a rs in if less l a b then b ∷ rest else a ∷ b ∷ rs

pub order_by : Listing → List RequestRow → List RequestRow
unfolding insert
order_by l [] = []
order_by l (r ∷ rs) = insert l r (order_by l rs)

abbrev pub select_where : Where → List RequestRow → List RequestRow
select_where Where.everything rows = rows
select_where (Where.only p) rows = filter p rows
select_where Where.unreadable rows = []

abbrev pub scan_rows : Pgx → ℕ → List Vote → List RequestRow → List FeatureRequest
scan_rows pg viewer votes = map (λ r. scan_row pg r (has_vote viewer r.id votes))

abbrev pub is_readable : Where → Bool
is_readable Where.unreadable = false
is_readable Where.everything = true
is_readable (Where.only p) = true

abbrev list_name : Listing → Bytes
list_name Listing.new = codes "list by new: "
list_name Listing.top = codes "list by top: "

abbrev run_list : Pgx → Call → Listing → Where → ℕ → ℕ → Db → Result (List FeatureRequest)
run_list pg c l w viewer limit db =
    if is_readable w
    then elim (c.exec_error 0) [
      | some m ↦ err (plain m)
      | none ↦
          ok (scan_rows pg viewer db.votes (take limit (order_by l (select_where w db.requests))))
    ]
    else err (prefixed (list_name l) (plain pg.invalid_uuid))

-- `ListRequestsByNew` and `ListRequestsByTop`; they write nothing. The services ask for a limit of
-- at least 2, so the error of a negative `LIMIT` is left out.
unfoldable pub list_requests : Listing → Pgx → Call → ListParams → Action Db (List FeatureRequest)
list_requests l pg c params db = elim c.query_error [
  | some m ↦ (err (prefixed (list_name l) (plain m)), db)
  | none ↦ elim (pg.parse_uuid params.viewer_id) [
    | none ↦ (err (prefixed (list_name l) (plain pg.invalid_uuid)), db)
    | some viewer ↦
        (run_list pg c l (where_cursor pg l params.cursor) viewer (pos_part params.limit) db, db)
  ]
]

-- `ListRequestsByTrending` calls `ListRequestsByTop`.
unfoldable pub list_requests_by_trending : Pgx → Call → ListParams → Action Db (List FeatureRequest)
unfolding list_requests
list_requests_by_trending = list_requests Listing.top
