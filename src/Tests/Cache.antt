-- ===== src/Tests/Cache.antt =====
-- Scores and cached counts, in a small Redis.
use feature_voting_system.Prelude.{
  ◌≡◌, refl, ◌&&◌, List, [], ◌∷◌, ◌++◌, Option, none, some, Bytes, codes, ℤ, pos, All, bytes_eq,
  bytes_eq_refl, if◌then◌else◌, arith,
}
use feature_voting_system.Errors.{plain, Result, ok, err}
use feature_voting_system.Database.{Call}
use feature_voting_system.Jobs.Trending.{
  SortedSets, trending_store, tick, done, returned, waiting, run,
}
use feature_voting_system.Jobs.Trending.Scores.{ZaddLaws, HasScore}
use feature_voting_system.Jobs.Trending.Rounds.{ticks, run-returned, run-HasScore}
use feature_voting_system.Redis.Votes.{Command, CacheClient}
use feature_voting_system.Redis.Votes.Counts.{PipelineLaws}
use feature_voting_system.Tests.Data.{pgx, call, db, db-IsConsistent}

abbrev Sets : Type 0
Sets = Bytes → Bytes → Option ℤ

abbrev sets : SortedSets ℤ Sets
sets = record {
  zadd = λ key x member r.
      (ok tt, λ k m. if bytes_eq k key && bytes_eq m member then some x else r k m);
}

sets-ZaddLaws : ZaddLaws sets (λ r key member. r key member)
sets-ZaddLaws = record {
  sets_member = λ key x member r. ground (arith, bytes_eq_refl key, bytes_eq_refl member);
  keeps_others = λ key x member other r differ. ground (arith, bytes_eq_refl key);
}

-- The count alone.
abbrev by_count : ℤ → ℤ → ℤ
by_count n created_at = n

-- A round whose query fails.
abbrev lost : Call
lost = record call { query_error = some (codes "conn closed") }

abbrev failing : List (Call × (ℤ → ℤ → ℤ))
failing = (lost, by_count) ∷ (call, λ n created_at. created_at) ∷ []

run-HasScore_example :
    (r' : Sets) × (run
        (pos 120)
        (ticks pgx sets failing ++ (tick (trending_store pgx sets call) by_count ∷ []))
        (db, λ _ _. none)
      ≡ waiting (db, r'))
    × All
        (HasScore pgx sets (λ r key member. r key member) sets-ZaddLaws call by_count r')
        db.requests
run-HasScore_example =
    run-HasScore pgx sets (λ r key member. r key member) sets-ZaddLaws (pos 120) failing call
      by_count db (λ _ _. none) refl refl refl db-IsConsistent.request_ids

run-returned_example :
    (r' : Sets) × (run
        (pos 120)
        (ticks pgx sets failing ++ (done ∷ tick (trending_store pgx sets call) by_count ∷ []))
        (db, λ _ _. none)
      ≡ returned (db, r'))
run-returned_example =
    run-returned pgx sets (pos 120) failing (tick (trending_store pgx sets call) by_count ∷ []) db
      (λ _ _. none) refl

abbrev Strings : Type 0
Strings = Bytes → Option Bytes

abbrev put : Bytes → Bytes → Strings → Strings
put key val r k = if bytes_eq k key then some val else r k

abbrev run_all : List (Command ℤ) → Strings → Strings
run_all [] r = r
run_all (Command.set key val ∷ rest) r = run_all rest (put key val r)
run_all (Command.zadd key score member ∷ rest) r = run_all rest r

abbrev found : Option Bytes → Result Bytes
found none = err (plain (codes "redis: nil"))
found (some val) = ok val

abbrev rdb : CacheClient ℤ Strings
rdb = record {
  float64 = λ n. n;
  exec = λ commands r. (ok tt, run_all commands r);
  get = λ key r. found (r key);
  zadd_one = λ key score member r. (ok tt, r);
  zrev_range = λ key n r. ok [];
}

rdb-PipelineLaws : PipelineLaws rdb
rdb-PipelineLaws = record {
  stores = λ key val zset score member r done. ground (arith, bytes_eq_refl key);
  keeps = λ key val zset other score member r differ zdiffer. ground arith;
}
