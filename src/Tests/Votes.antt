-- ===== src/Tests/Votes.antt =====
-- Votes on the small database.
use feature_voting_system.Prelude.{
  ℕ, suc, ◌≡◌, ◌↔◌, refl, true, false, ◌&&◌, ◌||◌, not, Bytes, pos, ◌+ℤ◌, ◌==◌, if◌then◌else◌,
  codes, arith, bytes_eq, ap,
}
use feature_voting_system.Errors.{Sentinel, sentinel, Error, Result, ok, err}
use feature_voting_system.Database.{Db, Commit, Call}
use feature_voting_system.Database.Driver.{sound_call-IsSound}
use feature_voting_system.Database.Tables.{has_vote, count_votes}
use feature_voting_system.Database.Consistency.{IsConsistent}
use feature_voting_system.Postgres.Votes.{insert_vote}
use feature_voting_system.Postgres.Votes.Insert.{
  InsertedBy, insert_vote-Ends, insert_vote-IsConsistent,
}
use feature_voting_system.Postgres.Votes.Read.{get_request_author_id_found}
use feature_voting_system.Postgres.Transaction.Atomic.{Ends}
use feature_voting_system.Service.Vote.{postgres_votes, upvote, remove_vote}
use feature_voting_system.Service.Vote.Casting.{AreSound, upvote_self, upvote_lem}
use feature_voting_system.Service.Vote.Removal.{remove_vote_lem}
use feature_voting_system.Service.Vote.Contract.{postgres_votes-VoteLaws}
use feature_voting_system.Handler.Votes
use feature_voting_system.Handler.Votes.Status.{upvote_status, upvote_refused}
use feature_voting_system.Tests.Data.{
  unary, pgx, call, calls, dark_mode, db, db-IsConsistent, vote_request,
}

calls-AreSound : AreSound calls
calls-AreSound = record {
  author = sound_call-IsSound (pos 500) 77;
  write = sound_call-IsSound (pos 500) 77;
  count = sound_call-IsSound (pos 500) 77;
}

upvote_lem_example :
    let (out, db') = upvote (postgres_votes pgx calls) (unary 3) (unary 10) db in
    (out
      ≡ ok (record {
        request_id = unary 10;
        vote_count = pos (count_votes 10 db'.votes);
        user_voted = true;
      }))
    × (count_votes 10 db'.votes ≡ (
        if has_vote 3 10 db.votes then count_votes 10 db.votes else suc (count_votes 10 db.votes)))
    × ((a s : ℕ) → has_vote a s db'.votes ≡ ((a == 3 && s == 10) || has_vote a s db.votes))
upvote_lem_example =
    upvote_lem pgx calls (unary 10) 3 10 dark_mode db calls-AreSound refl refl (omega arith)
      db-IsConsistent refl (unfold ◌+ℤ◌ in omega arith)

remove_vote_lem_example :
    let (out, db') = remove_vote (postgres_votes pgx calls) (unary 2) (unary 10) db in
    (out
      ≡ ok (record {
        request_id = unary 10;
        vote_count = pos (count_votes 10 db'.votes);
        user_voted = false;
      }))
    × ((if has_vote 2 10 db.votes then suc (count_votes 10 db'.votes) else count_votes 10 db'.votes)
        ≡ count_votes 10 db.votes)
    × ((a s : ℕ) → has_vote a s db'.votes ≡ (not (a == 2 && s == 10) && has_vote a s db.votes))
remove_vote_lem_example =
    remove_vote_lem pgx calls (unary 10) 2 10 dark_mode db calls-AreSound refl refl db-IsConsistent

upvote_self_example :
    upvote (postgres_votes pgx calls) (unary 1) (unary 10) db
    ≡ (err (sentinel Sentinel.self_vote), db)
upvote_self_example =
    upvote_self pgx calls (unary 10) 10 dark_mode db (sound_call-IsSound (pos 500) 77) refl refl

insert_vote-IsConsistent_example : IsConsistent (insert_vote pgx call (unary 3) (unary 10) db).1
insert_vote-IsConsistent_example =
    insert_vote-IsConsistent pgx call (unary 3) (unary 10) db db-IsConsistent

-- The answer to the commit is lost.
abbrev lost : Call
lost = record call { commit = Commit.in_doubt (codes "conn closed") }

insert_vote-Ends_example :
    Ends
      (InsertedBy pgx lost (unary 3) (unary 10) db)
      lost.commit
      db
      (insert_vote pgx lost (unary 3) (unary 10) db)
insert_vote-Ends_example = insert_vote-Ends pgx lost (unary 3) (unary 10) db

upvote_status_example :
    let out = Votes.upvote (postgres_votes pgx calls) (vote_request 1 10) db in
    let author = (postgres_votes pgx calls).get_request_author_id (unary 10) db in
    ((out.0.status ≡ 403) ↔ (author.0 ≡ ok (unary 1)))
    × ((out.0.status ≡ 404) ↔ ((e : Error) × (author.0 ≡ err e)))
upvote_status_example =
    upvote_status (postgres_votes pgx calls) (postgres_votes-VoteLaws pgx calls) (vote_request 1 10)
      db (unary 1) (refl, unfold bytes_eq in refl)

own_vote_status : (Votes.upvote (postgres_votes pgx calls) (vote_request 1 10) db).0.status ≡ 403
own_vote_status = upvote_status_example.0.1 (
    ap (λ (p : Result Bytes × Db). p.0)
      (get_request_author_id_found pgx call (unary 10) 10 dark_mode db refl refl refl))

upvote_refused_example : (Votes.upvote (postgres_votes pgx calls) (vote_request 1 10) db).1 ≡ db
upvote_refused_example =
    upvote_refused (postgres_votes pgx calls) (postgres_votes-VoteLaws pgx calls)
      (vote_request 1 10) db (λ e. omega (arith, own_vote_status))
      (λ e. omega (arith, own_vote_status))
