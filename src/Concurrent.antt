-- ===== src/Concurrent.antt =====
-- Requests that are served at the same time, and the reconcile job beside them: between the check
-- of the author and the insertion of a vote, and between the query for mismatches and each fix,
-- other calls may come (internal/service/vote.go, internal/ranking/reconcile.go).
pub mod Effects
pub mod Safety
pub mod Invariant
pub mod Refinement
use feature_voting_system.Prelude.{ℕ, ◌≡◌, false, List, [], ◌∷◌, ◌++◌, Bytes, bytes_eq}
use feature_voting_system.Errors.{ok}
use feature_voting_system.Database.{Db, Pgx, Call}
use feature_voting_system.Postgres.Votes.{insert_vote, delete_vote, get_request_author_id}
use feature_voting_system.Postgres.Users.{create_user}
use feature_voting_system.Postgres.Requests.{insert_feature_request}
use feature_voting_system.Postgres.Ranking.{Mismatch, get_vote_count_mismatches, fix_vote_count}

-- The tables, the upvotes whose check has passed, and the fixes that a round has still to make. A
-- user is who the access token names, in the text form of PostgreSQL.
pub record World : Type 0 where
  pub db : Db
  pub checked : List (ℕ × Bytes)
  pub fixes : List Mismatch

pub data Step (pg : Pgx) (w : World) : World → Type 0 where
  -- `Upvote` up to its comparison of the author
  check :
      (c : Call) (u : ℕ) (request author : Bytes)
      → (get_request_author_id pg c request w.db).0 ≡ ok author
      → bytes_eq author (pg.uuid_text u) ≡ false
      → Step pg w (record w { checked = (u, request) ∷ w.checked })
  -- the rest of `Upvote`
  insert :
      (c : Call) (u : ℕ) (request : Bytes) (p q : List (ℕ × Bytes))
      → w.checked ≡ p ++ ((u, request) ∷ q)
      → Step pg w
          (record w { db = (insert_vote pg c (pg.uuid_text u) request w.db).1; checked = p ++ q })
  remove :
      (c : Call) (user request : Bytes)
      → Step pg w (record w { db = (delete_vote pg c user request w.db).1 })
  submit :
      (c : Call) (author title description : Bytes)
      → Step pg w (record w { db = (insert_feature_request pg c author title description w.db).1 })
  register :
      (c : Call) (email hash : Bytes)
      → Step pg w (record w { db = (create_user pg c email hash w.db).1 })
  -- a round of the job reads its mismatches
  scan :
      (c : Call) (ms : List Mismatch)
      → (get_vote_count_mismatches pg c w.db).0 ≡ ok ms
      → Step pg w (record w { fixes = ms })
  fix :
      (c : Call) (m : Mismatch) (ms : List Mismatch)
      → w.fixes ≡ m ∷ ms
      → Step pg w (record w { db = (fix_vote_count pg c m.id m.actual_count w.db).1; fixes = ms })

-- What is reached from a world by steps in any order.
pub data Reach (pg : Pgx) (w : World) : World → Type 0 where
  here : Reach pg w w
  later : {s t : World} → Reach pg w s → Step pg s t → Reach pg w t
