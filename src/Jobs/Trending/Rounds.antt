-- ===== src/Jobs/Trending/Rounds.antt =====
-- What `Run` of the trending job leaves, over any number of rounds.
use mathlib.Core.Path.{subst}
use feature_voting_system.Prelude.{
  ◌≡◌, refl, sym, ap, ◌∙◌, inl, inr, true, false, List, [], ◌∷◌, ◌++◌, Option, none, Bytes, ℤ, pos,
  All, arith, map, ltb_ℤ, Option-cases,
}
use feature_voting_system.Database.{Db, Pgx, Call}
use feature_voting_system.Database.Consistency.{HasUniqueIds}
use feature_voting_system.Postgres.Ranking.{RequestForScoring, scan_scoring, get_all_requests}
use feature_voting_system.Jobs.Trending.{
  SortedSets, trending_store, score_each, recompute, Event, tick, done, panicked, returned, waiting,
  loop, bad_interval, run,
}
use feature_voting_system.Jobs.Trending.Scores.{ZaddLaws, HasScore, recompute-HasScore}

module _ {Score R : Type 0} (pg : Pgx) (sets : SortedSets Score R) where
  score_each-tables :
      (read : Call) (score : ℤ → ℤ → Score) (reqs : List RequestForScoring) (db : Db) (r : R)
      → (score_each (trending_store pg sets read) score reqs (db, r)).0 ≡ db
  unfolding score_each
  score_each-tables read score [] db r = refl
  score_each-tables read score (q ∷ reqs) db r = score_each-tables read score reqs db _

  -- A round never writes a table.
  pub recompute-tables :
      (read : Call) (score : ℤ → ℤ → Score) (db : Db) (r : R)
      → (recompute (trending_store pg sets read) score (db, r)).1.0 ≡ db
  unfolding recompute get_all_requests
  recompute-tables read score db r = elim (Option-cases read.query_error) [
    | inr (m, failed) ↦ ground arith
    | inl sound ↦ elim (Option-cases (read.exec_error 0)) [
      | inr (m, failed) ↦ ground arith
      | inl all ↦
          ground (arith, score_each-tables read score (map (scan_scoring pg) db.requests) db r)
    ]
  ]

  -- The rounds of a job, by what the driver does in each and the scores at its time.
  abbrev pub ticks : List (Call × (ℤ → ℤ → Score)) → List (Event Score (Db × R))
  ticks rounds = map (λ q. tick (trending_store pg sets q.0) q.1) rounds

  loop-append :
      (rounds : List (Call × (ℤ → ℤ → Score))) (events : List (Event Score (Db × R))) (db : Db)
      (r : R)
      → (r' : R) × (loop (ticks rounds ++ events) (db, r) ≡ loop events (db, r'))
  unfolding loop
  loop-append [] events db r = (r, refl)
  loop-append ((read, score) ∷ rounds) events db r =
      let out = recompute (trending_store pg sets read) score (db, r) in
      let (r', rest) = loop-append rounds events db out.1.1 in
      (
        r',
        subst (λ (d : Db). loop (ticks rounds ++ events) (d, out.1.1) ≡ loop events (db, r'))
            (sym (recompute-tables read score db r)) rest,
      )

  -- `Run` returns at the end of its context, whatever the rounds before it did and whatever would
  -- follow, with the tables as they were; the interval is positive.
  pub run-returned :
      (interval : ℤ) (rounds : List (Call × (ℤ → ℤ → Score))) (later : List (Event Score (Db × R)))
      (db : Db) (r : R)
      → ltb_ℤ (pos 0) interval ≡ true
      → (r' : R) × (run interval (ticks rounds ++ (done ∷ later)) (db, r) ≡ returned (db, r'))
  unfolding run loop
  run-returned interval rounds later db r positive =
      let (r', stops) = loop-append rounds (done ∷ later) db r in (r', rw positive stops)

  -- Whatever the rounds before it did, a round whose query does not fail sets the score of every
  -- request. The interval is positive, ids are unique, and ZADD sets the score of its member and of
  -- no other.
  pub run-HasScore :
      (zscore : R → Bytes → Bytes → Option Score) (laws : ZaddLaws sets zscore) (interval : ℤ)
      (rounds : List (Call × (ℤ → ℤ → Score))) (read : Call) (score : ℤ → ℤ → Score) (db : Db)
      (r : R)
      → ltb_ℤ (pos 0) interval ≡ true
      → read.query_error ≡ none
      → read.exec_error 0 ≡ none
      → HasUniqueIds db.requests
      → (r' : R) × (run interval
            (ticks rounds ++ (tick (trending_store pg sets read) score ∷ []))
            (db, r)
          ≡ waiting (db, r'))
        × All (HasScore pg sets zscore laws read score r') db.requests
  unfolding run loop
  run-HasScore zscore laws interval rounds read score db r positive sound all unique =
      let (r₁, before) = loop-append rounds (tick (trending_store pg sets read) score ∷ []) db r in
      let (_, same, scored) =
        recompute-HasScore pg sets zscore laws read score db r₁ sound all unique in
      let out = recompute (trending_store pg sets read) score (db, r₁) in
      (out.1.1, rw positive (before ∙ ap waiting (λ i. (same i, out.1.1))), scored)

pub run-not_positive :
    {Score S : Type 0} (interval : ℤ) (events : List (Event Score S)) (s : S)
    → ltb_ℤ (pos 0) interval ≡ false
    → run interval events s ≡ panicked bad_interval s
unfolding run
run-not_positive interval events s h = rw h refl
