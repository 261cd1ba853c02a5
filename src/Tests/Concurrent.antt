-- ===== src/Tests/Concurrent.antt =====
-- Two upvotes and a removal that are interleaved.
use feature_voting_system.Prelude.{◌≡◌, refl, ap, [], ◌∷◌, Bytes, bytes_eq}
use feature_voting_system.Errors.{Result, ok}
use feature_voting_system.Database.{Db}
use feature_voting_system.Postgres.Votes.{insert_vote, delete_vote, get_request_author_id}
use feature_voting_system.Postgres.Votes.Read.{get_request_author_id_found}
use feature_voting_system.Concurrent.{World, Reach, check, insert, remove, here, later}
use feature_voting_system.Concurrent.Safety.{IsSafe}
use feature_voting_system.Concurrent.Invariant.{Reach-IsSafe}
use feature_voting_system.Tests.Data.{
  unary, pgx, call, dark_mode, db, db-IsConsistent, db-HasUserKeys,
}

abbrev start : World
start = record { db = db; checked = []; fixes = [] }

start-IsSafe : IsSafe pgx start
start-IsSafe = record {
  user_keys = db-HasUserKeys;
  consistent = db-IsConsistent;
  no_self_vote = (refl, tt);
  checks_hold = tt;
  nothing_to_fix = refl;
}

-- User 3 passes the check, then user 2 does and takes its vote back, then both insert.
abbrev end : World
end = record {
  db =
      (insert_vote pgx call (unary 2) (unary 10)
        (insert_vote pgx call (unary 3) (unary 10)
          (delete_vote pgx call (unary 2) (unary 10) db).1).1).1;
  checked = [];
  fixes = [];
}

interleaved : Reach pgx start end
interleaved =
    later
      (later
        (later
          (later (later here (check call 3 (unary 10) (unary 1) author (unfold bytes_eq in refl)))
            (check call 2 (unary 10) (unary 1) author (unfold bytes_eq in refl)))
          (remove call (unary 2) (unary 10)))
        (insert call 3 (unary 10) ((2, unary 10) ∷ []) [] refl))
      (insert call 2 (unary 10) [] [] refl)
  where
    author : (get_request_author_id pgx call (unary 10) db).0 ≡ ok (unary 1)
    author =
        ap (λ (p : Result Bytes × Db). p.0)
          (get_request_author_id_found pgx call (unary 10) 10 dark_mode db refl refl refl)

Reach-IsSafe_example : IsSafe pgx end
Reach-IsSafe_example = Reach-IsSafe pgx interleaved start-IsSafe
