-- ===== src/Concurrent/Invariant.antt =====
-- The invariants under any interleaving.
use mathlib.Core.Path.{subst}
use mathlib.Core.Bool.{false≢true}
use feature_voting_system.Prelude.{
  ℕ, ◌≡◌, sym, ap, ◌∙◌, inl, inr, false, List, [], ◌∷◌, ◌++◌, Bytes, All, All-map, All-middle,
  bytes_eq, bytes_eq_refl, ◌==◌, ==_iff, arith, Bool-cases,
}
use feature_voting_system.Errors.{ok}
use feature_voting_system.Database.{Db, Pgx, Call}
use feature_voting_system.Database.Tables.{has_request}
use feature_voting_system.Database.Consistency.{RefersTo, IsConsistent, is_author, has_request-some}
use feature_voting_system.Postgres.Votes.{insert_vote, delete_vote, get_request_author_id}
use feature_voting_system.Postgres.Votes.Insert.{insert_vote-IsConsistent}
use feature_voting_system.Postgres.Votes.Delete.{delete_vote-IsConsistent}
use feature_voting_system.Postgres.Votes.Read.{get_request_author_id-row}
use feature_voting_system.Postgres.Users.{create_user}
use feature_voting_system.Postgres.Requests.{insert_feature_request}
use feature_voting_system.Postgres.Users.Emails.{
  Registered, create_user-Registered, create_user-HasUserKeys,
}
use feature_voting_system.Postgres.Requests.Store.{insert_feature_request-IsConsistent}
use feature_voting_system.Concurrent.{
  World, Step, check, insert, remove, submit, register, scan, fix, Reach, here, later,
}
use feature_voting_system.Concurrent.Effects.{
  insert_vote-Voted, delete_vote-Unvoted, insert_feature_request-Submitted,
  get_vote_count_mismatches-nil,
}
use feature_voting_system.Concurrent.Safety.{
  IsChecked, IsSafe, Keeps-IsChecked, Voted-Keeps, Unvoted-Keeps, Submitted-Keeps,
  Voted-HasNoSelfVote, Unvoted-HasNoSelfVote, Submitted-HasNoSelfVote, Voted-HasUserKeys,
  Unvoted-HasUserKeys, Submitted-HasUserKeys,
}

author_differs :
    (pg : Pgx) (c : Call) (u : ℕ) (request author : Bytes) (db : Db)
    → (get_request_author_id pg c request db).0 ≡ ok author
    → bytes_eq author (pg.uuid_text u) ≡ false
    → IsChecked pg db (u, request)
author_differs pg c u request author db read other r parsed =
    let (row, found, text) = get_request_author_id-row pg c request author r db read parsed in
    elim (Bool-cases (u == row.author_id)) [
      | inl same ↦
          let own = text ∙ ap pg.uuid_text (sym ((==_iff u row.author_id).0 same)) in
          absurd (
            false≢true (
              sym other
              ∙ ap (λ a. bytes_eq a (pg.uuid_text u)) own
              ∙ bytes_eq_refl (pg.uuid_text u)))
      | inr differ ↦ (has_request-some r db.requests {row = row} found, ground arith)
    ]

Registered-IsConsistent : (db db' : Db) → Registered db db' → IsConsistent db → IsConsistent db'
Registered-IsConsistent db db' (inl same) h = subst IsConsistent (sym same) h
Registered-IsConsistent db db' (inr (u, effect)) h = subst IsConsistent (sym effect) (record {
  counted = h.counted;
  in_range = h.in_range;
  request_ids = h.request_ids;
  one_vote_each = h.one_vote_each;
  references =
      All-map (RefersTo db.users db.requests) (RefersTo (u ∷ db.users) db.requests) db.votes
        (λ v r. (ground arith, r.1)) h.references;
})

Registered-same :
    (db db' : Db) → Registered db db' → (db'.requests ≡ db.requests) × (db'.votes ≡ db.votes)
Registered-same db db' (inl same) = ground arith
Registered-same db db' (inr (u, effect)) = ground arith

-- A list without the member in its middle.
All-remove :
    (pg : Pgx) (db : Db) (p : List (ℕ × Bytes)) (x : ℕ × Bytes) (q : List (ℕ × Bytes))
    → All (IsChecked pg db) (p ++ (x ∷ q))
    → All (IsChecked pg db) (p ++ q)
All-remove pg db [] x q h = h.1
All-remove pg db (y ∷ p) x q h = (h.0, All-remove pg db p x q h.1)

pub Step-IsSafe : (pg : Pgx) {w w' : World} → Step pg w w' → IsSafe pg w → IsSafe pg w'
Step-IsSafe pg {w} (check c u request author read other) h = record {
  user_keys = h.user_keys;
  consistent = h.consistent;
  no_self_vote = h.no_self_vote;
  checks_hold = (author_differs pg c u request author w.db read other, h.checks_hold);
  nothing_to_fix = h.nothing_to_fix;
}
Step-IsSafe pg {w} (insert c u request p q waiting) h =
    let db' = (insert_vote pg c (pg.uuid_text u) request w.db).1 in
    let voted = insert_vote-Voted pg c u request w.db in
    let all = subst (All (IsChecked pg w.db)) waiting h.checks_hold in
    let mine = All-middle (IsChecked pg w.db) p (u, request) q all in
    record {
      user_keys = Voted-HasUserKeys pg u request w.db db' voted h.user_keys;
      consistent = insert_vote-IsConsistent pg c (pg.uuid_text u) request w.db h.consistent;
      no_self_vote = Voted-HasNoSelfVote pg u request w.db db' mine voted h.no_self_vote;
      checks_hold =
          Keeps-IsChecked pg w.db db' (p ++ q) (Voted-Keeps pg u request w.db db' voted)
            (All-remove pg w.db p (u, request) q all);
      nothing_to_fix = h.nothing_to_fix;
    }
Step-IsSafe pg {w} (remove c user request) h =
    let db' = (delete_vote pg c user request w.db).1 in
    let unvoted = delete_vote-Unvoted pg c user request w.db in
    record {
      user_keys = Unvoted-HasUserKeys pg w.db db' unvoted h.user_keys;
      consistent = delete_vote-IsConsistent pg c user request w.db h.consistent;
      no_self_vote = Unvoted-HasNoSelfVote w.db db' unvoted h.no_self_vote;
      checks_hold =
          Keeps-IsChecked pg w.db db' w.checked (Unvoted-Keeps w.db db' unvoted) h.checks_hold;
      nothing_to_fix = h.nothing_to_fix;
    }
Step-IsSafe pg {w} (submit c author title description) h =
    let db' = (insert_feature_request pg c author title description w.db).1 in
    let stored = insert_feature_request-Submitted pg c author title description w.db in
    record {
      user_keys = Submitted-HasUserKeys pg w.db db' stored h.user_keys;
      consistent =
          insert_feature_request-IsConsistent pg c author title description w.db h.consistent;
      no_self_vote = Submitted-HasNoSelfVote w.db db' stored h.consistent.references h.no_self_vote;
      checks_hold =
          Keeps-IsChecked pg w.db db' w.checked (Submitted-Keeps w.db db' stored) h.checks_hold;
      nothing_to_fix = h.nothing_to_fix;
    }
Step-IsSafe pg {w} (register c email hash) h =
    let db' = (create_user pg c email hash w.db).1 in
    let added = create_user-Registered pg c email hash w.db in
    let (rows, votes) = Registered-same w.db db' added in
    record {
      user_keys = create_user-HasUserKeys pg c email hash w.db h.user_keys;
      consistent = Registered-IsConsistent w.db db' added h.consistent;
      no_self_vote =
          subst (λ rs. All (λ v. is_author v.user_id v.request_id rs ≡ false) db'.votes) (sym rows)
            (subst (All (λ v. is_author v.user_id v.request_id w.db.requests ≡ false)) (sym votes)
              h.no_self_vote);
      checks_hold =
          Keeps-IsChecked pg w.db db' w.checked
            (λ u r there. (ap (has_request r) rows ∙ there, ap (is_author u r) rows)) h.checks_hold;
      nothing_to_fix = h.nothing_to_fix;
    }
Step-IsSafe pg {w} (scan c ms found) h = record {
  user_keys = h.user_keys;
  consistent = h.consistent;
  no_self_vote = h.no_self_vote;
  checks_hold = h.checks_hold;
  nothing_to_fix = get_vote_count_mismatches-nil pg c w.db ms h.consistent.counted found;
}
Step-IsSafe pg {w} (fix c m ms waiting) h = absurd (cc (waiting, h.nothing_to_fix))

-- Whatever calls are interleaved, between the check of an author and the insertion of the vote
-- and between the query of the reconcile job and its fixes too, and however the driver behaves in
-- each, these stay true: the counters are the numbers of votes, the keys of all three tables
-- hold, that of emails up to the letters' case, nobody has a vote on a request of their own,
-- every upvote that waits for its insertion is of another user than the author, and the job has
-- nothing to fix.
pub Reach-IsSafe : (pg : Pgx) {w w' : World} → Reach pg w w' → IsSafe pg w → IsSafe pg w'
Reach-IsSafe pg here h = h
Reach-IsSafe pg (later r s) h = Step-IsSafe pg s (Reach-IsSafe pg r h)
