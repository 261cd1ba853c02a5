-- ===== src/Service/Ranking/Client.antt =====
-- A client that follows the cursors, and the lemmas on one page.
use feature_voting_system.Prelude.{
  ℕ, zero, suc, ◌≡◌, refl, inl, inr, List, ◌++◌, none, some, Bytes, codes, pos, bytes_eq, negsuc, ℤ,
  IsInt32, IsInt64, arith, ltb, if◌then◌else◌, Bool-cases, length, take, take-take-suc,
  take-eq_of_le, length-take,
}
use feature_voting_system.Errors.{plain, Action, pure, raise, ◌>>=◌}
use feature_voting_system.Cursor.{encode_cursor}
use feature_voting_system.Database.{RequestRow, Pgx}
use feature_voting_system.Postgres.Requests.{FeatureRequest, ListParams, Listing}
use feature_voting_system.Service.Page.{page_limit, page_of}
use feature_voting_system.Service.Ranking.{RankingRepo, list}

-- The order that a sort selects: trending requests are listed as the top ones are.
abbrev pub listing_of : Bytes → Listing
listing_of sort =
    if bytes_eq sort (codes "top")
    then Listing.top
    else if bytes_eq sort (codes "trending")
    then Listing.top
    else Listing.new

pub page_of-take : (n : ℕ) (xs : List FeatureRequest) → page_of n (take (suc n) xs) ≡ page_of n xs
page_of-take n xs = elim (Bool-cases (ltb n (length xs))) [
  | inl more ↦ ground (arith, length-take (suc n) xs, take-take-suc n xs)
  | inr all ↦ ground (arith, take-eq_of_le (suc n) xs)
]

abbrev pub row_cursor : Pgx → RequestRow → Bytes
row_cursor pg x = encode_cursor (pg.uuid_text x.id) (pg.decode_time x.created_at) x.vote_count

pub page_limit-suc : (l : ℤ) → (n : ℕ) × (page_limit l ≡ suc n)
page_limit-suc (pos zero) = (19, refl)
page_limit-suc (negsuc n) = (19, ground arith)
page_limit-suc (pos (suc n)) = elim (Bool-cases (ltb 100 (suc n))) [
  | inl big ↦ (19, ground arith)
  | inr small ↦ (n, ground arith)
]

-- A client that follows the cursors.
unfoldable pub walk : {S : Type 0} → RankingRepo S → ℕ → ListParams → Action S (List FeatureRequest)
walk repo zero params = raise (plain (codes "out of fuel"))
walk repo (suc f) params = list repo params >>= λ page. elim page.next_cursor [
  | none ↦ pure page.items
  | some c ↦ walk repo f (record params { cursor = some c }) >>= λ more. pure (page.items ++ more)
]

-- Its cursor and count can be written: the time is in the years of `UnixNano`.
abbrev pub HasCursor : Pgx → RequestRow → Type 0
HasCursor pg x = IsInt64 (pg.decode_time x.created_at) × IsInt32 x.vote_count
