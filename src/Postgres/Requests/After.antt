-- ===== src/Postgres/Requests/After.antt =====
-- The rows below a cursor are those that follow the row of the cursor in the order.
use feature_voting_system.Prelude.{
  ◌≡◌, refl, false, List, [], ◌∷◌, ◌++◌, some, All, arith, IsInt32, IsInt64, All-middle, Bool-cases,
  inl, inr,
}
use feature_voting_system.Cursor.{encode_cursor}
use feature_voting_system.Cursor.RoundTrip.{decode-encode_cursor, encode_cursor-ne-nil}
use feature_voting_system.Database.{RequestRow, Pgx}
use feature_voting_system.Database.Tables.{has_request}
use feature_voting_system.Database.Consistency.{HasUniqueIds}
use feature_voting_system.Postgres.Requests.{
  Listing, less, filter, Where, only, before_new, before_top, below_cursor, where_cursor,
}
use feature_voting_system.Postgres.Requests.Order.{less_asymm, less_total, IsDescending}

less_irrefl : (l : Listing) (x : RequestRow) → less l x x ≡ false
less_irrefl l x = elim (Bool-cases (less l x x)) [
  | inl before ↦ less_asymm l x x before
  | inr other ↦ other
]

-- Below `x` come all rows that follow it.
filter_below :
    (l : Listing) (x : RequestRow) (q : List RequestRow)
    → All (λ b. less l x b ≡ false) q
    → has_request x.id q ≡ false
    → filter (λ r. less l r x) q ≡ q
unfolding filter
filter_below l x [] h new = refl
filter_below l x (b ∷ q) h new = elim (Bool-cases (less l b x)) [
  | inl before ↦ ground (arith, filter_below l x q h.1)
  | inr other ↦ absurd (ground (arith, less_total l x b h.0 other))
]

-- In a descending list of different rows, those below a member are what follows it.
pub filter_after :
    (l : Listing) (p : List RequestRow) (x : RequestRow) (q : List RequestRow)
    → IsDescending l (p ++ (x ∷ q))
    → HasUniqueIds (p ++ (x ∷ q))
    → filter (λ r. less l r x) (p ++ (x ∷ q)) ≡ q
unfolding filter
filter_after l [] x q h u = ground (arith, less_irrefl l x, filter_below l x q h.0)
filter_after l (b ∷ p) x q h u =
    ground (arith, filter_after l p x q h.1 u.1, All-middle (λ c. less l b c ≡ false) p x q h.0)

-- The cursor that names a row is read as "below this row".
pub where_cursor-row :
    (pg : Pgx) (l : Listing) (x : RequestRow)
    → IsInt64 (pg.decode_time x.created_at)
    → IsInt32 x.vote_count
    → where_cursor pg l
        (some (encode_cursor (pg.uuid_text x.id) (pg.decode_time x.created_at) x.vote_count))
      ≡ Where.only (λ r. less l r x)
where_cursor-row pg l x wide narrow =
    rw
      (
        encode_cursor-ne-nil (pg.uuid_text x.id) (pg.decode_time x.created_at) x.vote_count,
        decode-encode_cursor (pg.uuid_text x.id) (pg.decode_time x.created_at) x.vote_count
            (pg.text-AreBytes x.id) (pg.text-Lacks_bar x.id) wide narrow,
        pg.parse-text x.id,
      )
      (same_test l)
  where
    same_test :
        (l : Listing)
        → only (
            below_cursor pg l
              (record {
                id = pg.uuid_text x.id;
                created_at = pg.decode_time x.created_at;
                vote_count = x.vote_count;
              })
              x.id)
          ≡ only (λ r. less l r x)
    same_test Listing.new =
        λ i. only (λ r. before_new r.created_at r.id (pg.encode-decode x.created_at i) x.id)
    same_test Listing.top = λ i. only (λ r.
        before_top r.vote_count r.created_at r.id x.vote_count (pg.encode-decode x.created_at i)
          x.id)
