-- ===== src/Jobs/Reconcile.antt =====
-- `ReconcileJob` of internal/ranking/reconcile.go, and `reconcileStoreAdapter` of
-- cmd/server/adapters.go.
pub mod Repair
pub mod Round
pub mod Stale
use feature_voting_system.Prelude.{List, [], ◌∷◌, ◌++◌, Bytes, codes, ℤ}
use feature_voting_system.Errors.{Result, ok, err, Action, pure, ◌>>=◌}
use feature_voting_system.Database.{Db, Pgx, Call}
use feature_voting_system.Postgres.Ranking.{Mismatch, get_vote_count_mismatches, fix_vote_count}

pub record ReconcileStore (S : Type 0) : Type 0 where
  pub get_vote_count_mismatches : Action S (List Mismatch)
  pub fix_vote_count : Bytes → ℤ → Action S (Unit {0})
  pub set_cached_count : Bytes → ℤ → S → S

module _ {S : Type 0} (store : ReconcileStore S) where
  -- The loop: a fix that fails is passed over.
  pub fix_each : List Mismatch → S → S
  fix_each [] s = s
  fix_each (m ∷ ms) s =
      let (out, s') = store.fix_vote_count m.id m.actual_count s in
      elim out [
        | err e ↦ fix_each ms s'
        | ok _ ↦ fix_each ms (store.set_cached_count m.id m.actual_count s')
      ]

  pub reconcile : Action S (Unit {0})
  unfolding fix_each
  reconcile = do mismatches ← store.get_vote_count_mismatches; λ s. (ok tt, fix_each mismatches s)

-- What `Run` waits for: the tick of its timer, at which the store behaves in some way, or the end
-- of its context.
pub data Event (S : Type 0) : Type 0 where
  tick : ReconcileStore S → Event S
  done : Event S

-- `Run`; an error of a round is only logged.
pub run : {S : Type 0} → List (Event S) → S → S
unfolding reconcile
run [] s = s
run (done ∷ events) s = s
run (tick store ∷ events) s = run events (reconcile store s).1

-- A Redis client, as far as the adapter uses it: SET without an expiry, whose error is dropped.
pub record CountCache (R : Type 0) : Type 0 where
  pub set : Bytes → ℤ → R → R

-- The fix of a request is a call of its own.
abbrev pub reconcile_store :
    {R : Type 0} → Pgx → CountCache R → Call → (Bytes → Call) → ReconcileStore (Db × R)
reconcile_store pg cache read fix = record {
  get_vote_count_mismatches =
      λ s. (let (out, db) = get_vote_count_mismatches pg read s.0 in (out, (db, s.1)));
  fix_vote_count = λ request n s.
      (let (out, db) = fix_vote_count pg (fix request) request n s.0 in (out, (db, s.1)));
  set_cached_count = λ request n s. (s.0, cache.set (codes "count:" ++ request) n s.1);
}
