-- ===== src/Jobs/Reconcile/Round.antt =====
-- What a round of reconciliation leaves.
use mathlib.Core.Path.{subst}
use feature_voting_system.Prelude.{
  ℕ, ◌≡◌, refl, sym, ap, ◌∙◌, inl, inr, true, List, [], ◌∷◌, none, Bytes, pos, IsInt32, All,
  All-map, arith, Bool-cases, Option-cases, map, eqb_ℤ_iff,
}
use feature_voting_system.Errors.{ok}
use feature_voting_system.Database.{RequestRow, Vote, Db, Pgx, Call}
use feature_voting_system.Database.Tables.{has_request, count_votes}
use feature_voting_system.Database.Consistency.{
  IsCounted, HasOneVoteEach, RefersTo, HasUniqueIds, IsConsistent,
}
use feature_voting_system.Postgres.Requests.{filter}
use feature_voting_system.Postgres.Requests.Order.{filter-All}
use feature_voting_system.Postgres.Ranking.{is_mismatched, fit_integer, get_vote_count_mismatches}
use feature_voting_system.Jobs.Reconcile.{
  CountCache, Event, run, reconcile_store, fix_each, reconcile,
}
use feature_voting_system.Jobs.Reconcile.Repair.{
  IsCountable, IsRepaired, IsHandled, IsFixed, fix_each-IsFixed,
}

-- All mismatched requests are to be fixed, and the others are right.
mismatched-IsHandled :
    (pg : Pgx) (fix : Bytes → Call) (votes : List Vote) (qs rows : List RequestRow)
    → ((i : ℕ) → has_request i (filter (is_mismatched votes) rows) ≡ true → has_request i qs ≡ true)
    → All (IsHandled pg fix votes qs) rows
unfolding filter
mismatched-IsHandled pg fix votes qs [] h = tt
mismatched-IsHandled pg fix votes qs (x ∷ rows) h = elim (Bool-cases (is_mismatched votes x)) [
  | inl wrong ↦ (
    inr (h x.id (ground arith)),
    mismatched-IsHandled pg fix votes qs rows (λ i e. h i (ground arith)),
  )
  | inr right ↦ (
    inl (λ _. (eqb_ℤ_iff x.vote_count (pos (count_votes x.id votes))).0 (ground arith)),
    mismatched-IsHandled pg fix votes qs rows (λ i e. h i (ground arith)),
  )
]

fit_integer-All :
    (votes : List Vote) (qs : List RequestRow)
    → All (IsCountable votes) qs
    → fit_integer votes qs ≡ true
fit_integer-All votes [] h = refl
fit_integer-All votes (q ∷ qs) h = ground (arith, fit_integer-All votes qs h.1)

pub none_mismatched :
    (votes : List Vote) (rows : List RequestRow)
    → All (IsCounted votes) rows
    → filter (is_mismatched votes) rows ≡ []
unfolding filter
none_mismatched votes [] h = refl
none_mismatched votes (x ∷ rows) h = ground (
  arith,
  none_mismatched votes rows h.1,
  (eqb_ℤ_iff x.vote_count (pos (count_votes x.id votes))).1 (h.0),
)

module _ {R : Type 0} (pg : Pgx) (cache : CountCache R) (read : Call) (fix : Bytes → Call) where
  -- A round whose query does not fail succeeds, writes no user and no vote, keeps the ids of the
  -- requests, and makes every counter right whose own fix did not fail. The numbers of votes fit
  -- their column.
  pub reconcile-IsFixed :
      (db : Db) (r : R)
      → read.query_error ≡ none
      → read.exec_error 0 ≡ none
      → All (IsCountable db.votes) db.requests
      → let (out, (db', r')) = reconcile (reconcile_store pg cache read fix) (db, r) in
        (out ≡ ok tt)
        × (db'.users ≡ db.users)
        × (db'.votes ≡ db.votes)
        × IsFixed pg fix db.votes db.requests db'.requests
  unfolding reconcile get_vote_count_mismatches
  reconcile-IsFixed db r sound rows_sound small =
      let qs = filter (is_mismatched db.votes) db.requests in
      let small_qs = filter-All (IsCountable db.votes) (is_mismatched db.votes) db.requests small in
      let (rows', r', loop, fixed) =
        fix_each-IsFixed pg fix db.votes cache read db.users qs db.requests r
          (mismatched-IsHandled pg fix db.votes qs db.requests (λ i e. e)) small_qs in
      let all : reconcile (reconcile_store pg cache read fix) (db, r)
          ≡ (ok tt, (record { users = db.users; requests = rows'; votes = db.votes }, r')) =
        ground (arith, fit_integer-All db.votes qs small_qs, loop) in
      subst
        (λ o.
          (o.0 ≡ ok tt)
          × (o.1.0.users ≡ db.users)
          × (o.1.0.votes ≡ db.votes)
          × IsFixed pg fix db.votes db.requests o.1.0.requests)
        (sym all) (refl, refl, refl, fixed)

  -- Where no call fails, a round makes consistent tables of tables in which the counters may be
  -- anything that their column holds, but the keys hold and the numbers of votes fit the column.
  pub reconcile-IsConsistent :
      (db : Db) (r : R)
      → read.query_error ≡ none
      → read.exec_error 0 ≡ none
      → ((request : Bytes) → (fix request).query_error ≡ none)
      → All (IsCountable db.votes) db.requests
      → All (λ x. IsInt32 x.vote_count) db.requests
      → HasUniqueIds db.requests
      → HasOneVoteEach db.votes
      → All (RefersTo db.users db.requests) db.votes
      → IsConsistent (reconcile (reconcile_store pg cache read fix) (db, r)).1.0
  reconcile-IsConsistent db r sound rows_sound fix_sound small range unique one refs =
      let (_, users, votes, fixed) = reconcile-IsFixed db r sound rows_sound small in
      let db' = (reconcile (reconcile_store pg cache read fix) (db, r)).1.0 in
      record {
        counted = rw votes (
            All-map (IsRepaired pg fix db.votes) (IsCounted db.votes) db'.requests
              (λ x good. good (fix_sound (pg.uuid_text x.id))) fixed.repaired);
        in_range = fixed.in_range range;
        request_ids = fixed.unique unique;
        one_vote_each = rw votes one;
        references =
            rw (votes, users)
              (All-map (RefersTo db.users db.requests) (RefersTo db.users db'.requests) db.votes
                (λ v refers. (refers.0, fixed.same_ids v.request_id ∙ refers.1)) refs);
      }

  -- A round on tables whose counters are right changes nothing, however the driver behaves, and so
  -- a second round after a full one is idle.
  pub reconcile_idle :
      (db : Db) (r : R)
      → All (IsCounted db.votes) db.requests
      → (reconcile (reconcile_store pg cache read fix) (db, r)).1 ≡ (db, r)
  unfolding reconcile get_vote_count_mismatches fix_each
  reconcile_idle db r counted = elim (Option-cases read.query_error) [
    | inr (m, failed) ↦ ground (arith, none_mismatched db.votes db.requests counted)
    | inl sound ↦ elim (Option-cases (read.exec_error 0)) [
      | inr (m, failed) ↦ ground (arith, none_mismatched db.votes db.requests counted)
      | inl read_all ↦ ground (arith, none_mismatched db.votes db.requests counted)
    ]
  ]

-- While every counter is the number of votes, `Run` changes nothing in any number of rounds,
-- however the driver behaves in each.
pub run_idle :
    {R : Type 0} (pg : Pgx) (cache : CountCache R) (rounds : List (Call × (Bytes → Call))) (db : Db)
    (r : R)
    → All (IsCounted db.votes) db.requests
    → run (map (λ q. Event.tick (reconcile_store pg cache q.0 q.1)) rounds) (db, r) ≡ (db, r)
unfolding run
run_idle pg cache [] db r counted = refl
run_idle pg cache ((read, fix) ∷ rounds) db r counted =
    ap (run (map (λ q. Event.tick (reconcile_store pg cache q.0 q.1)) rounds))
      (reconcile_idle pg cache read fix db r counted)
    ∙ run_idle pg cache rounds db r counted
