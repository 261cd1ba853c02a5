-- ===== src/Postgres/Ranking.antt =====
-- `RankingRepo` of internal/repository/postgres/ranking.go.
use feature_voting_system.Prelude.{
  Bool, true, not, ◌&&◌, ◌-◌, ◌^◌, List, [], ◌∷◌, none, some, Bytes, codes, ℤ, pos, eqb_ℤ, leb, map,
  if◌then◌else◌,
}
use feature_voting_system.Errors.{plain, prefixed, Result, ok, err, Action}
use feature_voting_system.Database.{RequestRow, Vote, Db, Pgx, Call}
use feature_voting_system.Database.Tables.{count_votes}
use feature_voting_system.Postgres.Votes.{update_request}
use feature_voting_system.Postgres.Requests.{filter}

-- `ranking.RequestForScoring`
pub record RequestForScoring : Type 0 where
  pub id : Bytes
  pub vote_count : ℤ
  pub created_at : ℤ

pub record Mismatch : Type 0 where
  pub id : Bytes
  pub stored_count : ℤ
  pub actual_count : ℤ

abbrev pub scan_scoring : Pgx → RequestRow → RequestForScoring
scan_scoring pg row = record {
  id = pg.uuid_text row.id;
  vote_count = row.vote_count;
  created_at = pg.decode_time row.created_at;
}

-- A query for rows: it fails at once, or while the rows are read, or returns them.
abbrev pub query_rows : {A : Type 0} → Call → Bytes → List A → Result (List A)
query_rows c what rows = elim c.query_error [
  | some m ↦ err (prefixed what (plain m))
  | none ↦ elim (c.exec_error 0) [ some m ↦ err (plain m) | none ↦ ok rows ]
]

unfoldable pub get_all_requests : Pgx → Call → Action Db (List RequestForScoring)
get_all_requests pg c db =
    (query_rows c (codes "get all requests: ") (map (scan_scoring pg) db.requests), db)

-- `HAVING fr.vote_count != COUNT(v.user_id)`
abbrev pub is_mismatched : List Vote → RequestRow → Bool
is_mismatched votes row = not (eqb_ℤ row.vote_count (pos (count_votes row.id votes)))

abbrev pub scan_mismatch : Pgx → List Vote → RequestRow → Mismatch
scan_mismatch pg votes row = record {
  id = pg.uuid_text row.id;
  stored_count = row.vote_count;
  actual_count = pos (count_votes row.id votes);
}

-- `COUNT(…)::INTEGER` of each row that is selected.
abbrev pub fit_integer : List Vote → List RequestRow → Bool
fit_integer votes [] = true
fit_integer votes (row ∷ rows) =
    leb (count_votes row.id votes) (2 ^ 31 - 1) && fit_integer votes rows

unfoldable pub get_vote_count_mismatches : Pgx → Call → Action Db (List Mismatch)
get_vote_count_mismatches pg c db =
    let rows = filter (is_mismatched db.votes) db.requests in
    (
      if fit_integer db.votes rows
          then query_rows c (codes "get mismatches: ") (map (scan_mismatch pg db.votes) rows)
          else err (plain pg.integer_out_of_range),
      db,
    )

abbrev pub recounted : ℤ → ℤ → RequestRow → RequestRow
recounted now n row = record row { vote_count = n; updated_at = now }

abbrev fix_row : Pgx → Call → Bytes → ℤ → Db → Result (Unit {0}) × Db
fix_row pg c request n db = elim (pg.parse_uuid request) [
  | none ↦ (err (prefixed (codes "fix vote count: ") (plain pg.invalid_uuid)), db)
  | some r ↦ (ok tt, record db { requests = update_request r (recounted c.now n) db.requests })
]

-- `UPDATE feature_requests SET vote_count = $1, updated_at = now() WHERE id = $2`
unfoldable pub fix_vote_count : Pgx → Call → Bytes → ℤ → Action Db (Unit {0})
fix_vote_count pg c request n db = elim c.query_error [
  | some m ↦ (err (prefixed (codes "fix vote count: ") (plain m)), db)
  | none ↦ fix_row pg c request n db
]
