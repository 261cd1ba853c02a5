-- ===== src/Server/System.antt =====
-- What cmd/server runs beside each other: the API, the reconcile job and the trending job, one
-- piece of work after the other.
use mathlib.Core.Path.{subst}
use feature_voting_system.Prelude.{sym, ap, List, [], ◌∷◌, Bytes, ℤ}
use feature_voting_system.Errors.{Result}
use feature_voting_system.Database.{Db, Pgx, Call}
use feature_voting_system.Database.Consistency.{IsConsistent, HasNoSelfVote}
use feature_voting_system.Postgres.Users.Emails.{HasUserKeys}
use feature_voting_system.Middleware.RateLimit.{RateStore}
use feature_voting_system.Jobs.Reconcile.{CountCache, reconcile, reconcile_store}
use feature_voting_system.Jobs.Reconcile.Round.{reconcile_idle}
use feature_voting_system.Jobs.Trending.{SortedSets, recompute, trending_store}
use feature_voting_system.Jobs.Trending.Rounds.{recompute-tables}
use feature_voting_system.Server.Router.{Mux, serve}
use feature_voting_system.Server.Router.Wiring.{api}
use feature_voting_system.Server.Router.Whole.{
  Arrival, postgres_parts, SignsUsers, serve_all, serve_all-IsConsistent,
}

-- A request that is served, a round of the reconcile job, with the driver's behaviour in its query
-- and in each fix, and a round of the trending job.
pub data Work (Score : Type 0) : Type 0 where
  serves : Arrival → Work Score
  reconciles : Call → (Bytes → Call) → Work Score
  recomputes : Call → (ℤ → ℤ → Score) → Work Score

-- The tables, and Redis: the limits, the cached counts and the sorted sets.
pub record Stores (R K Z : Type 0) : Type 0 where
  pub db : Db
  pub limits : R
  pub counts : K
  pub sets : Z

module _ {Score R K Z : Type 0} (pg : Pgx) (mux : Mux) (verify : Bytes → Result Bytes)
    (store : RateStore R) (cache : CountCache K) (sorted : SortedSets Score Z) where
  pub work : Work Score → Stores R K Z → Stores R K Z
  work (serves a) s =
      let (_, (db, limits)) =
        serve mux verify store a.now (api (postgres_parts pg a.env)) a.request (s.db, s.limits) in
      record s { db = db; limits = limits }
  work (reconciles read fix) s =
      let (_, (db, counts)) = reconcile (reconcile_store pg cache read fix) (s.db, s.counts) in
      record s { db = db; counts = counts }
  work (recomputes read score) s =
      let (_, (db, sets)) = recompute (trending_store pg sorted read) score (s.db, s.sets) in
      record s { db = db; sets = sets }

  pub work_all : List (Work Score) → Stores R K Z → Stores R K Z
  unfolding work
  work_all [] s = s
  work_all (x ∷ xs) s = work_all xs (work x s)

  -- The counters are the numbers of votes, the keys hold, and nobody has a vote on a request of
  -- their own.
  abbrev pub IsSound : Db → Type 0
  IsSound db = IsConsistent db × HasNoSelfVote db × HasUserKeys pg db

  module _ (signs : SignsUsers pg verify) where
    work-IsSound : (x : Work Score) (s : Stores R K Z) → IsSound s.db → IsSound (work x s).db
    unfolding work serve_all
    work-IsSound (serves a) s h =
        serve_all-IsConsistent pg mux verify store signs (a ∷ []) s.db s.limits h.0 h.1 h.2
    work-IsSound (reconciles read fix) s h =
        subst IsSound
          (sym (ap (λ o. o.0) (reconcile_idle pg cache read fix s.db s.counts h.0.counted))) h
    work-IsSound (recomputes read score) s h =
        subst IsSound (sym (recompute-tables pg sorted read score s.db s.sets)) h

    -- Whatever the server serves and its jobs do, in any order, and however the driver behaves in
    -- each call: the counters stay the numbers of votes, the keys of all three tables hold, that
    -- of emails up to the letters' case, and nobody has a vote on a request of their own. Access
    -- tokens are signed for the ids of users only.
    pub work_all-IsSound :
        (xs : List (Work Score)) (s : Stores R K Z) → IsSound s.db → IsSound (work_all xs s).db
    unfolding work_all
    work_all-IsSound [] s h = h
    work_all-IsSound (x ∷ xs) s h = work_all-IsSound xs (work x s) (work-IsSound x s h)
