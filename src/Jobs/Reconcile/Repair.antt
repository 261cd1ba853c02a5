-- ===== src/Jobs/Reconcile/Repair.antt =====
-- What the loop of a round of reconciliation does.
use feature_voting_system.Prelude.{
  ℕ, ◌≡◌, ◌⊎◌, ◌≤◌, ◌-◌, ◌^◌, refl, ap, ◌∙◌, inl, inr, true, List, [], ◌∷◌, none, some, Bytes, ℤ,
  pos, IsInt32, All, All-map, arith, Bool-cases, Option-cases, ◌==◌, ==_iff, codes, ◌++◌, map,
}
use feature_voting_system.Errors.{ok, err, plain, prefixed}
use feature_voting_system.Database.{UserRow, RequestRow, Vote, Db, Pgx, Call}
use feature_voting_system.Database.Tables.{has_request, count_votes}
use feature_voting_system.Database.Consistency.{IsCounted, HasUniqueIds}
use feature_voting_system.Postgres.Votes.{update_request}
use feature_voting_system.Postgres.Votes.Counts.{update-HasUniqueIds, has_request-update}
use feature_voting_system.Postgres.Ranking.{scan_mismatch, recounted, fix_vote_count}
use feature_voting_system.Jobs.Reconcile.{CountCache, reconcile_store, fix_each}

-- A counter that a 32-bit column can hold.
abbrev pub IsCountable : List Vote → RequestRow → Type 0
IsCountable votes x = count_votes x.id votes ≤ 2 ^ 31 - 1

pub fix_vote_count_sound :
    (pg : Pgx) (c : Call) (i : ℕ) (n : ℤ) (db : Db)
    → c.query_error ≡ none
    → fix_vote_count pg c (pg.uuid_text i) n db
      ≡ (ok tt, record db { requests = update_request i (recounted c.now n) db.requests })
unfolding fix_vote_count
fix_vote_count_sound pg c i n db sound = ground (arith, pg.parse-text i)

fix_vote_count_failed :
    (pg : Pgx) (c : Call) (request : Bytes) (n : ℤ) (db : Db) (m : Bytes)
    → c.query_error ≡ some m
    → fix_vote_count pg c request n db ≡ (err (prefixed (codes "fix vote count: ") (plain m)), db)
unfolding fix_vote_count
fix_vote_count_failed pg c request n db m failed = ground arith

module _ (pg : Pgx) (fix : Bytes → Call) (votes : List Vote) where
  -- If the fix of this request does not fail, then its counter is right.
  abbrev pub IsRepaired : RequestRow → Type 0
  IsRepaired x = (fix (pg.uuid_text x.id)).query_error ≡ none → IsCounted votes x

  -- Repaired, or among those that are still to be fixed.
  abbrev pub IsHandled : List RequestRow → RequestRow → Type 0
  IsHandled qs x = IsRepaired x ⊎ (has_request x.id qs ≡ true)

  repair_rows :
      (now : ℤ) (q : RequestRow) (qs rows : List RequestRow)
      → All (IsHandled (q ∷ qs)) rows
      → All (IsHandled qs) (update_request q.id (recounted now (pos (count_votes q.id votes))) rows)
  repair_rows now q qs [] h = tt
  repair_rows now q qs (x ∷ rows) h = elim (Bool-cases (q.id == x.id)) [
    | inl same ↦ rw same (
      inl (λ _. ap (λ i. pos (count_votes i votes)) ((==_iff q.id x.id).0 same)),
      repair_rows now q qs rows h.1,
    )
    | inr other ↦ rw other (
      elim (h.0) [ inl good ↦ inl good | inr listed ↦ inr (ground arith) ],
      repair_rows now q qs rows h.1,
    )
  ]

  -- A fix that fails leaves its request as it is.
  pass_rows :
      (q : RequestRow) (qs rows : List RequestRow) (m : Bytes)
      → (fix (pg.uuid_text q.id)).query_error ≡ some m
      → All (IsHandled (q ∷ qs)) rows
      → All (IsHandled qs) rows
  pass_rows q qs [] m failed h = tt
  pass_rows q qs (x ∷ rows) m failed h = (
    elim (h.0) [
      | inl good ↦ inl good
      | inr listed ↦ elim (Bool-cases (x.id == q.id)) [
        | inl same ↦
            let at_q = ap (λ i. (fix (pg.uuid_text i)).query_error) ((==_iff x.id q.id).0 same) in
            inl (λ sound. absurd (cc (failed, sound, at_q)))
        | inr other ↦ inr (ground arith)
      ]
    ],
    pass_rows q qs rows m failed h.1,
  )

  range_rows :
      (now : ℤ) (q : RequestRow) (rows : List RequestRow)
      → IsCountable votes q
      → All (λ x. IsInt32 x.vote_count) rows
      → All
          (λ x. IsInt32 x.vote_count)
          (update_request q.id (recounted now (pos (count_votes q.id votes))) rows)
  range_rows now q [] small h = tt
  range_rows now q (x ∷ rows) small h = ground (arith, range_rows now q rows small h.1)

  -- What the loop leaves of the requests: the same ids, counters that fit, and all repaired.
  pub record IsFixed (rows rows' : List RequestRow) : Type 0 where
    pub repaired : All IsRepaired rows'
    pub same_ids : (i : ℕ) → has_request i rows' ≡ has_request i rows
    pub unique : HasUniqueIds rows → HasUniqueIds rows'
    pub in_range : All (λ x. IsInt32 x.vote_count) rows → All (λ x. IsInt32 x.vote_count) rows'

  module _ {R : Type 0} (cache : CountCache R) (read : Call) (users : List UserRow) where
    pub fix_each-IsFixed :
        (qs rows : List RequestRow) (r : R)
        → All (IsHandled qs) rows
        → All (IsCountable votes) qs
        → (rows' : List RequestRow) × (r' : R) × (fix_each
              (reconcile_store pg cache read fix)
              (map (scan_mismatch pg votes) qs)
              ((record { users = users; requests = rows; votes = votes }), r)
            ≡ ((record { users = users; requests = rows'; votes = votes }), r'))
          × IsFixed rows rows'
    unfolding fix_each
    fix_each-IsFixed [] rows r h small = (
      rows,
      r,
      refl,
      record {
        repaired =
            All-map (IsHandled []) IsRepaired rows
              (λ x k. elim k [ inl good ↦ good | inr e ↦ absurd cc ]) h;
        same_ids = λ i. refl;
        unique = λ u. u;
        in_range = λ k. k;
      },
    )
    fix_each-IsFixed (q ∷ qs) rows r h small =
        let c = fix (pg.uuid_text q.id) in
        let n = pos (count_votes q.id votes) in
        elim (Option-cases c.query_error) [
          | inl sound ↦
              let next = update_request q.id (recounted c.now n) rows in
              let (rows', r', loop, fixed) =
                fix_each-IsFixed qs next (cache.set (codes "count:" ++ pg.uuid_text q.id) n r)
                  (repair_rows c.now q qs rows h) small.1 in
              (
                rows',
                r',
                ground (
                  arith,
                  fix_vote_count_sound pg c q.id n
                      (record { users = users; requests = rows; votes = votes }) sound,
                  loop,
                ),
                record {
                  repaired = fixed.repaired;
                  same_ids = λ i. fixed.same_ids i ∙ has_request-update c.now (λ _. n) q.id i rows;
                  unique = λ u. fixed.unique (update-HasUniqueIds c.now (λ _. n) q.id rows u);
                  in_range = λ k. fixed.in_range (range_rows c.now q rows small.0 k);
                },
              )
          | inr (m, failed) ↦
              let (rows', r', loop, fixed) =
                fix_each-IsFixed qs rows r (pass_rows q qs rows m failed h) small.1 in
              (
                rows',
                r',
                ground (
                  arith,
                  fix_vote_count_failed pg c (pg.uuid_text q.id) n
                      (record { users = users; requests = rows; votes = votes }) m failed,
                  loop,
                ),
                fixed,
              )
        ]
