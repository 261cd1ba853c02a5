-- ===== src/Postgres/Votes/Insert.antt =====
-- What `InsertVote` does on each path.
use mathlib.Core.Path.{subst}
use feature_voting_system.Prelude.{
  ℕ, ◌≡◌, sym, IsInt32, inl, inr, Bool, true, false, ◌∷◌, some, Bytes, ℤ, pos, ◌+ℤ◌, ◌≤ℤ◌, ◌-◌, ◌^◌,
  arith, Option-cases,
}
use feature_voting_system.Errors.{Result, ok, err}
use feature_voting_system.Database.{RequestRow, Db, Pgx, Call, IsSound}
use feature_voting_system.Database.Tables.{find_request, has_user, has_vote}
use feature_voting_system.Database.Consistency.{
  IsCounted, IsConsistent, find_request-All, has_request-none, has_request-some,
}
use feature_voting_system.Postgres.Transaction.Atomic.{Ends, transaction-Ends}
use feature_voting_system.Postgres.Votes.Counts.{
  increment-IsCounted, update-in_range, update-HasUniqueIds, update-RefersTo,
}
use feature_voting_system.Postgres.Votes.{update_request, bumped, insert_body, insert_vote}

-- The vote of `u` on `r`, and one more on the counter of `r`.
abbrev pub add_vote : ℤ → ℕ → ℕ → Db → Db
add_vote now u r db = record db {
  requests = update_request r (λ x. bumped now (x.vote_count +ℤ pos 1) x) db.requests;
  votes = record { user_id = u; request_id = r; created_at = now } ∷ db.votes;
}

pub record IsAdded (now : ℤ) (u r : ℕ) (db db' : Db) : Type 0 where
  pub absent : has_vote u r db.votes ≡ false
  pub user_known : has_user u db.users ≡ true
  pub row : RequestRow
  pub found : find_request r db.requests ≡ some row
  pub fits : row.vote_count +ℤ pos 1 ≤ℤ pos (2 ^ 31 - 1)
  pub effect : db' ≡ add_vote now u r db

-- The returned Boolean tells a new vote from one that was there.
abbrev pub Inserted : ℤ → ℕ → ℕ → Db → Bool → Db → Type 0
Inserted now u r db true db' = IsAdded now u r db db'
Inserted now u r db false db' = (has_vote u r db.votes ≡ true) × (db' ≡ db)

insert_body-Inserted :
    (pg : Pgx) (c : Call) (user request : Bytes) (u r : ℕ) (db : Db) (b : Bool) (db' : Db)
    → pg.parse_uuid user ≡ some u
    → pg.parse_uuid request ≡ some r
    → insert_body pg c user request db ≡ (ok b, db')
    → Inserted c.now u r db b db'
unfolding insert_body
insert_body-Inserted pg c user request u r db true db' pu pr h =
    elim (Option-cases (find_request r db.requests)) [
      | inl missing ↦ absurd (ground (arith, has_request-none r db.requests missing))
      | inr (row, found) ↦ record {
        absent = ground arith;
        user_known = ground arith;
        row = row;
        found = found;
        fits = ground arith;
        effect = ground arith;
      }
    ]
insert_body-Inserted pg c user request u r db false db' pu pr h = ground arith

-- Both texts stood for UUIDs, and these are the parts of the call's effect.
abbrev pub InsertedBy : Pgx → Call → Bytes → Bytes → Db → Bool → Db → Type 0
InsertedBy pg c user request db b db' =
    (u : ℕ) × (r : ℕ) × (pg.parse_uuid user ≡ some u)
    × (pg.parse_uuid request ≡ some r)
    × Inserted c.now u r db b db'

insert_body-InsertedBy :
    (pg : Pgx) (c : Call) (user request : Bytes) (db : Db) (b : Bool) (db' : Db)
    → insert_body pg c user request db ≡ (ok b, db')
    → InsertedBy pg c user request db b db'
insert_body-InsertedBy pg c user request db b db' h = elim (Option-cases (pg.parse_uuid user)) [
  | inl bad ↦ absurd (unfold insert_body in ground arith)
  | inr (u, pu) ↦ elim (Option-cases (pg.parse_uuid request)) [
    | inl bad ↦ absurd (unfold insert_body in ground arith)
    | inr (r, pr) ↦ (u, r, pu, pr, insert_body-Inserted pg c user request u r db b db' pu pr h)
  ]
]

-- On every path `InsertVote` reports what it did, and it is atomic: `true` is a new vote and one
-- more on the counter, `false` is a vote that was there, with nothing changed, and an error
-- leaves the tables alone unless the answer to the commit was lost.
pub insert_vote-Ends :
    (pg : Pgx) (c : Call) (user request : Bytes) (db : Db)
    → Ends (InsertedBy pg c user request db) c.commit db (insert_vote pg c user request db)
unfolding insert_vote
insert_vote-Ends pg c user request db =
    transaction-Ends (InsertedBy pg c user request db) c (insert_body pg c user request) db
      (insert_body-InsertedBy pg c user request db)

-- Where the driver does not fail and both ids are known, the result is whether the vote is new,
-- and afterwards the vote is there.
pub insert_vote_new :
    (pg : Pgx) (c : Call) (user request : Bytes) (u r : ℕ) (row : RequestRow) (db : Db)
    → IsSound c
    → pg.parse_uuid user ≡ some u
    → pg.parse_uuid request ≡ some r
    → has_user u db.users ≡ true
    → find_request r db.requests ≡ some row
    → row.vote_count +ℤ pos 1 ≤ℤ pos (2 ^ 31 - 1)
    → has_vote u r db.votes ≡ false
    → insert_vote pg c user request db ≡ (ok true, add_vote c.now u r db)
unfolding insert_vote
insert_vote_new pg c user request u r row db sound pu pr known found fits new =
    ground (arith, has_request-some r db.requests {row = row} found)

pub insert_vote_again :
    (pg : Pgx) (c : Call) (user request : Bytes) (u r : ℕ) (db : Db)
    → IsSound c
    → pg.parse_uuid user ≡ some u
    → pg.parse_uuid request ≡ some r
    → has_vote u r db.votes ≡ true
    → insert_vote pg c user request db ≡ (ok false, db)
unfolding insert_vote
insert_vote_again pg c user request u r db sound pu pr there = ground arith

-- The counter that is incremented fits its column, whichever row of that id is read.
increment_fits :
    (r : ℕ) (row : RequestRow) (db : Db)
    → IsConsistent db
    → find_request r db.requests ≡ some row
    → row.vote_count +ℤ pos 1 ≤ℤ pos (2 ^ 31 - 1)
    → (x : RequestRow) → r ≡ x.id
    → IsCounted db.votes x
    → IsInt32 x.vote_count
    → IsInt32 (x.vote_count +ℤ pos 1)
unfolding ◌+ℤ◌
increment_fits r row db h found fits x same counted small =
    let (row_counted, row_id) =
      find_request-All (IsCounted db.votes) r db.requests {row = row} h.counted found in
    ground arith

pub IsAdded-IsConsistent :
    {now : ℤ} {u r : ℕ} {db db' : Db} → IsAdded now u r db db' → IsConsistent db → IsConsistent db'
IsAdded-IsConsistent {now} {u} {r} {db} a h = rw (a.effect) (record {
  counted =
      increment-IsCounted now (record { user_id = u; request_id = r; created_at = now }) db.votes
        db.requests h.counted;
  in_range =
      update-in_range now (λ x. x.vote_count +ℤ pos 1) r db.votes db.requests
        (increment_fits r a.row db h a.found a.fits) h.counted h.in_range;
  request_ids = update-HasUniqueIds now (λ x. x.vote_count +ℤ pos 1) r db.requests h.request_ids;
  one_vote_each = (a.absent, h.one_vote_each);
  references =
      update-RefersTo now (λ x. x.vote_count +ℤ pos 1) r db.users db.requests
        (add_vote now u r db).votes
        ((a.user_known, has_request-some r db.requests {row = a.row} a.found), h.references);
})

Inserted-IsConsistent :
    (now : ℤ) (u r : ℕ) (db db' : Db) (b : Bool)
    → Inserted now u r db b db'
    → IsConsistent db
    → IsConsistent db'
Inserted-IsConsistent now u r db db' true i h = IsAdded-IsConsistent i h
Inserted-IsConsistent now u r db db' false i h = subst IsConsistent (sym i.1) h

Ends-IsConsistent :
    (pg : Pgx) (c : Call) (user request : Bytes) (db : Db) (out : Result Bool × Db)
    → Ends (InsertedBy pg c user request db) c.commit db out
    → IsConsistent db
    → IsConsistent out.1
Ends-IsConsistent pg c user request db (ok b, db') e h =
    Inserted-IsConsistent c.now e.0 e.1 db db' b e.4 h
Ends-IsConsistent pg c user request db (err e, db') (inl same) h = subst IsConsistent (sym same) h
Ends-IsConsistent pg c user request db (err e, db') (inr lost) h =
    Inserted-IsConsistent c.now lost.3.0 lost.3.1 db db' lost.2 lost.3.4 h

-- However the driver behaves, `InsertVote` keeps consistent tables so: the counters stay the
-- numbers of votes, and the keys hold.
pub insert_vote-IsConsistent :
    (pg : Pgx) (c : Call) (user request : Bytes) (db : Db)
    → IsConsistent db
    → IsConsistent (insert_vote pg c user request db).1
insert_vote-IsConsistent pg c user request db =
    Ends-IsConsistent pg c user request db (insert_vote pg c user request db)
      (insert_vote-Ends pg c user request db)
