-- ===== src/Jobs/Trending.antt =====
-- `TrendingJob` of internal/ranking/trending.go, and `trendingStoreAdapter` of
-- cmd/server/adapters.go.
pub mod Scores
pub mod Rounds
use feature_voting_system.Prelude.{List, [], ◌∷◌, Bytes, codes, ℤ, pos, ltb_ℤ, if◌then◌else◌}
use feature_voting_system.Errors.{Result, ok, err, Action, ◌>>=◌}
use feature_voting_system.Database.{Db, Pgx, Call}
use feature_voting_system.Postgres.Ranking.{RequestForScoring, get_all_requests}

-- `Score` is float64.
pub record TrendingStore (Score S : Type 0) : Type 0 where
  pub get_all_requests : Action S (List RequestForScoring)
  pub set_trending_score : Bytes → Score → Action S (Unit {0})

-- `score` is `TrendingScore` at the time of the call.
module _ {Score S : Type 0} (store : TrendingStore Score S) (score : ℤ → ℤ → Score) where
  -- The loop: a score that cannot be set is passed over.
  pub score_each : List RequestForScoring → S → S
  score_each [] s = s
  score_each (req ∷ requests) s =
      score_each requests
        (store.set_trending_score req.id (score req.vote_count req.created_at) s).1

  pub recompute : Action S (Unit {0})
  unfolding score_each
  recompute = do requests ← store.get_all_requests; λ s. (ok tt, score_each requests s)

-- What `Run` waits for: the tick of its timer, at which the store and the clock behave in some way,
-- or the end of its context.
pub data Event (Score S : Type 0) : Type 0 where
  tick : TrendingStore Score S → (ℤ → ℤ → Score) → Event Score S
  done : Event Score S

-- Where `Run` is: it panicked before its loop, it has returned, or it waits for an event.
pub data Running (S : Type 0) : Type 0 where
  panicked : Bytes → S → Running S
  returned : S → Running S
  waiting : S → Running S

-- The loop; an error of a round is only logged.
pub loop : {Score S : Type 0} → List (Event Score S) → S → Running S
unfolding recompute
loop [] s = waiting s
loop (done ∷ events) s = returned s
loop (tick store score ∷ events) s = loop events (recompute store score s).1

-- `time.NewTicker` panics unless its interval is positive.
abbrev pub bad_interval : Bytes
bad_interval = codes "non-positive interval for NewTicker"

-- `Run` of a job with an interval of so many nanoseconds.
unfoldable pub run : {Score S : Type 0} → ℤ → List (Event Score S) → S → Running S
unfolding loop
run interval events s = if ltb_ℤ (pos 0) interval then loop events s else panicked bad_interval s

-- A Redis client, as far as the adapter uses it: ZADD of one member.
pub record SortedSets (Score R : Type 0) : Type 0 where
  pub zadd : Bytes → Score → Bytes → Action R (Unit {0})

abbrev pub trending_store :
    {Score R : Type 0} → Pgx → SortedSets Score R → Call → TrendingStore Score (Db × R)
trending_store pg sets read = record {
  get_all_requests = λ s. (let (out, db) = get_all_requests pg read s.0 in (out, (db, s.1)));
  set_trending_score = λ request score s.
      (let (out, r) = sets.zadd (codes "trending") score request s.1 in (out, (s.0, r)));
}
