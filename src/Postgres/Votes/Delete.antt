-- ===== src/Postgres/Votes/Delete.antt =====
-- What `DeleteVote` does on each path.
use mathlib.Core.Path.{subst}
use feature_voting_system.Prelude.{
  ℕ, ◌≡◌, sym, IsInt32, inl, inr, Bool, true, false, List, some, Bytes, ℤ, pos, ◌-ℤ◌, max_ℤ, arith,
  Option-cases,
}
use feature_voting_system.Errors.{Result, ok, err}
use feature_voting_system.Database.{RequestRow, Vote, Db, Pgx, Call, IsSound}
use feature_voting_system.Database.Tables.{has_vote}
use feature_voting_system.Database.Consistency.{IsCounted, IsConsistent}
use feature_voting_system.Postgres.Transaction.Atomic.{Ends, transaction-Ends}
use feature_voting_system.Postgres.Votes.Counts.{
  decrement-IsCounted, delete_absent, count_pair-pos, delete-HasOneVoteEach, delete-RefersTo,
  update-in_range, update-HasUniqueIds, update-RefersTo,
}
use feature_voting_system.Postgres.Votes.{
  update_request, bumped, delete_votes, delete_body, delete_vote,
}

abbrev clamped_pred : ℤ → ℤ
clamped_pred n = max_ℤ (n -ℤ pos 1) (pos 0)

-- Without the vote of `u` on `r`, and with one less on the counter of `r`.
abbrev pub remove_vote : ℤ → ℕ → ℕ → Db → Db
remove_vote now u r db = record db {
  requests =
      update_request r (λ x. bumped now (max_ℤ (x.vote_count -ℤ pos 1) (pos 0)) x) db.requests;
  votes = delete_votes u r db.votes;
}

pub record IsRemoved (now : ℤ) (u r : ℕ) (db db' : Db) : Type 0 where
  pub present : has_vote u r db.votes ≡ true
  pub effect : db' ≡ remove_vote now u r db

abbrev pub Deleted : ℤ → ℕ → ℕ → Db → Bool → Db → Type 0
Deleted now u r db true db' = IsRemoved now u r db db'
Deleted now u r db false db' = (has_vote u r db.votes ≡ false) × (db' ≡ db)

delete_body-Deleted :
    (pg : Pgx) (c : Call) (user request : Bytes) (u r : ℕ) (db : Db) (b : Bool) (db' : Db)
    → pg.parse_uuid user ≡ some u
    → pg.parse_uuid request ≡ some r
    → delete_body pg c user request db ≡ (ok b, db')
    → Deleted c.now u r db b db'
unfolding delete_body
delete_body-Deleted pg c user request u r db true db' pu pr h =
    ground (arith, count_pair-pos u r db.votes)
delete_body-Deleted pg c user request u r db false db' pu pr h =
    ground (arith, count_pair-pos u r db.votes, delete_absent u r db.votes)

-- Both texts stood for UUIDs, and these are the parts of the call's effect.
abbrev pub DeletedBy : Pgx → Call → Bytes → Bytes → Db → Bool → Db → Type 0
DeletedBy pg c user request db b db' =
    (u : ℕ) × (r : ℕ) × (pg.parse_uuid user ≡ some u)
    × (pg.parse_uuid request ≡ some r)
    × Deleted c.now u r db b db'

delete_body-DeletedBy :
    (pg : Pgx) (c : Call) (user request : Bytes) (db : Db) (b : Bool) (db' : Db)
    → delete_body pg c user request db ≡ (ok b, db')
    → DeletedBy pg c user request db b db'
delete_body-DeletedBy pg c user request db b db' h = elim (Option-cases (pg.parse_uuid user)) [
  | inl bad ↦ absurd (unfold delete_body in ground arith)
  | inr (u, pu) ↦ elim (Option-cases (pg.parse_uuid request)) [
    | inl bad ↦ absurd (unfold delete_body in ground arith)
    | inr (r, pr) ↦ (u, r, pu, pr, delete_body-Deleted pg c user request u r db b db' pu pr h)
  ]
]

-- On every path `DeleteVote` reports what it did, and it is atomic: `true` is a vote removed and
-- one less on the counter, `false` is no such vote, with nothing changed, and an error leaves the
-- tables alone unless the answer to the commit was lost.
pub delete_vote-Ends :
    (pg : Pgx) (c : Call) (user request : Bytes) (db : Db)
    → Ends (DeletedBy pg c user request db) c.commit db (delete_vote pg c user request db)
unfolding delete_vote
delete_vote-Ends pg c user request db =
    transaction-Ends (DeletedBy pg c user request db) c (delete_body pg c user request) db
      (delete_body-DeletedBy pg c user request db)

pub delete_vote_present :
    (pg : Pgx) (c : Call) (user request : Bytes) (u r : ℕ) (db : Db)
    → IsSound c
    → pg.parse_uuid user ≡ some u
    → pg.parse_uuid request ≡ some r
    → has_vote u r db.votes ≡ true
    → delete_vote pg c user request db ≡ (ok true, remove_vote c.now u r db)
unfolding delete_vote
delete_vote_present pg c user request u r db sound pu pr there =
    ground (arith, count_pair-pos u r db.votes)

pub delete_vote_absent :
    (pg : Pgx) (c : Call) (user request : Bytes) (u r : ℕ) (db : Db)
    → IsSound c
    → pg.parse_uuid user ≡ some u
    → pg.parse_uuid request ≡ some r
    → has_vote u r db.votes ≡ false
    → delete_vote pg c user request db ≡ (ok false, db)
unfolding delete_vote
delete_vote_absent pg c user request u r db sound pu pr absent =
    ground (arith, count_pair-pos u r db.votes, delete_absent u r db.votes)

clamped_pred-IsInt32 :
    (votes : List Vote) (x : RequestRow)
    → IsCounted votes x
    → IsInt32 x.vote_count
    → IsInt32 (clamped_pred x.vote_count)
unfolding ◌-ℤ◌
clamped_pred-IsInt32 votes x counted small = ground arith

pub IsRemoved-IsConsistent :
    {now : ℤ} {u r : ℕ} {db db' : Db}
    → IsRemoved now u r db db'
    → IsConsistent db
    → IsConsistent db'
IsRemoved-IsConsistent {now} {u} {r} {db} a h = rw (a.effect) (record {
  counted = decrement-IsCounted now u r db.votes db.requests h.one_vote_each a.present h.counted;
  in_range =
      update-in_range now (λ x. clamped_pred x.vote_count) r db.votes db.requests
        (λ x _. clamped_pred-IsInt32 db.votes x) h.counted h.in_range;
  request_ids =
      update-HasUniqueIds now (λ x. clamped_pred x.vote_count) r db.requests h.request_ids;
  one_vote_each = delete-HasOneVoteEach u r db.votes h.one_vote_each;
  references =
      update-RefersTo now (λ x. clamped_pred x.vote_count) r db.users db.requests
        (delete_votes u r db.votes)
        (delete-RefersTo u r db.users db.requests db.votes h.references);
})

Deleted-IsConsistent :
    (now : ℤ) (u r : ℕ) (db db' : Db) (b : Bool)
    → Deleted now u r db b db'
    → IsConsistent db
    → IsConsistent db'
Deleted-IsConsistent now u r db db' true i h = IsRemoved-IsConsistent i h
Deleted-IsConsistent now u r db db' false i h = subst IsConsistent (sym i.1) h

Ends-IsConsistent :
    (pg : Pgx) (c : Call) (user request : Bytes) (db : Db) (out : Result Bool × Db)
    → Ends (DeletedBy pg c user request db) c.commit db out
    → IsConsistent db
    → IsConsistent out.1
Ends-IsConsistent pg c user request db (ok b, db') e h =
    Deleted-IsConsistent c.now e.0 e.1 db db' b e.4 h
Ends-IsConsistent pg c user request db (err e, db') (inl same) h = subst IsConsistent (sym same) h
Ends-IsConsistent pg c user request db (err e, db') (inr lost) h =
    Deleted-IsConsistent c.now lost.3.0 lost.3.1 db db' lost.2 lost.3.4 h

-- However the driver behaves, `DeleteVote` keeps consistent tables so: the counters stay the
-- numbers of votes, and the keys hold.
pub delete_vote-IsConsistent :
    (pg : Pgx) (c : Call) (user request : Bytes) (db : Db)
    → IsConsistent db
    → IsConsistent (delete_vote pg c user request db).1
delete_vote-IsConsistent pg c user request db =
    Ends-IsConsistent pg c user request db (delete_vote pg c user request db)
      (delete_vote-Ends pg c user request db)
