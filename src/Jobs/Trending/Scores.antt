-- ===== src/Jobs/Trending/Scores.antt =====
-- What a recomputation leaves in the sorted set.
use feature_voting_system.Prelude.{
  ℕ, ◌≡◌, refl, sym, ◌∙◌, false, List, [], ◌∷◌, Option, none, some, Bytes, codes, ℤ, All, arith,
  bytes_eq, map, ==_iff, ◌≢◌,
}
use mathlib.Core.Path.{subst}
use mathlib.Core.Bool.{false≢true}
use feature_voting_system.Errors.{ok}
use feature_voting_system.Database.{RequestRow, Db, Pgx, Call}
use feature_voting_system.Database.Tables.{has_request}
use feature_voting_system.Database.Consistency.{HasUniqueIds}
use feature_voting_system.Postgres.Ranking.{scan_scoring, get_all_requests}
use feature_voting_system.Service.Vote.Casting.{uuid_text-ne}
use feature_voting_system.Jobs.Trending.{SortedSets, trending_store, score_each, recompute}

-- ZADD sets the score of its member and of no other.
pub record ZaddLaws {Score R : Type 0} (sets : SortedSets Score R)
    (zscore : R → Bytes → Bytes → Option Score) : Type 0 where
  pub sets_member :
      (key : Bytes) (x : Score) (member : Bytes) (r : R)
      → zscore (sets.zadd key x member r).1 key member ≡ some x
  pub keeps_others :
      (key : Bytes) (x : Score) (member other : Bytes) (r : R)
      → bytes_eq other member ≡ false
      → zscore (sets.zadd key x member r).1 key other ≡ zscore r key other

module _ {Score R : Type 0} (pg : Pgx) (sets : SortedSets Score R)
    (zscore : R → Bytes → Bytes → Option Score) (laws : ZaddLaws sets zscore) (read : Call)
    (score : ℤ → ℤ → Score) where
  abbrev pub HasScore : R → RequestRow → Type 0
  HasScore r x =
      zscore r (codes "trending") (pg.uuid_text x.id)
      ≡ some (score x.vote_count (pg.decode_time x.created_at))

  -- The scores of other requests stay.
  score_each-other :
      (i : ℕ) (rows : List RequestRow) (db : Db) (r : R)
      → has_request i rows ≡ false
      → let out =
          score_each (trending_store pg sets read) score (map (scan_scoring pg) rows) (db, r) in
        (out.0 ≡ db)
        × (zscore out.1 (codes "trending") (pg.uuid_text i)
            ≡ zscore r (codes "trending") (pg.uuid_text i))
  unfolding score_each
  score_each-other i [] db r absent = (refl, refl)
  score_each-other i (x ∷ rows) db r absent =
      let r' =
        (sets.zadd (codes "trending") (score x.vote_count (pg.decode_time x.created_at))
          (pg.uuid_text x.id) r).1 in
      let differ : i ≢ x.id =
        λ e. false≢true (sym (ground (arith, absent)) ∙ (==_iff i x.id).1 e) in
      let (same, kept) = score_each-other i rows db r' (ground arith) in
      (
        same,
        kept
            ∙ laws.keeps_others (codes "trending") _ (pg.uuid_text x.id) (pg.uuid_text i) r
                (uuid_text-ne pg i x.id differ),
      )

  score_each-HasScore :
      (rows : List RequestRow) (db : Db) (r : R)
      → HasUniqueIds rows
      → let out =
          score_each (trending_store pg sets read) score (map (scan_scoring pg) rows) (db, r) in
        (out.0 ≡ db) × All (HasScore out.1) rows
  unfolding score_each
  score_each-HasScore [] db r unique = (refl, tt)
  score_each-HasScore (x ∷ rows) db r unique =
      let r' =
        (sets.zadd (codes "trending") (score x.vote_count (pg.decode_time x.created_at))
          (pg.uuid_text x.id) r).1 in
      let (same, all) = score_each-HasScore rows db r' unique.1 in
      (
        same,
        (
          (score_each-other x.id rows db r' unique.0).1
              ∙ laws.sets_member (codes "trending") _ (pg.uuid_text x.id) r,
          all,
        ),
      )

  -- After a recomputation whose query does not fail, each request has the score of its count and
  -- its time in the sorted set, and the tables are as they were. Ids are unique, and ZADD sets
  -- the score of its member and of no other.
  pub recompute-HasScore :
      (db : Db) (r : R)
      → read.query_error ≡ none
      → read.exec_error 0 ≡ none
      → HasUniqueIds db.requests
      → let (out, (db', r')) = recompute (trending_store pg sets read) score (db, r) in
        (out ≡ ok tt) × (db' ≡ db) × All (HasScore r') db.requests
  unfolding recompute get_all_requests
  recompute-HasScore db r sound read_all unique =
      let store = trending_store pg sets read in
      let whole : recompute store score (db, r)
          ≡ (ok tt, score_each store score (map (scan_scoring pg) db.requests) (db, r)) =
        ground arith in
      let (same, all) = score_each-HasScore db.requests db r unique in
      subst (λ o. (o.0 ≡ ok tt) × (o.1.0 ≡ db) × All (HasScore o.1.1) db.requests) (sym whole)
        (refl, same, all)
