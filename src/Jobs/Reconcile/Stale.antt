-- ===== src/Jobs/Reconcile/Stale.antt =====
-- A vote that comes between the query of a round and one of its fixes.
use mathlib.Core.List.{Memᴰ}
use mathlib.Core.Option.{some-injective}
use mathlib.Core.Path.{subst}
use feature_voting_system.Prelude.{
  Bool, ℤ, ℕ, ◌≡◌, refl, sym, ap, ◌∙◌, true, List, [], ◌∷◌, none, some, Bytes, pos, ◌+ℤ◌, arith,
  map,
}
use feature_voting_system.Errors.{Result, ok, err}
use feature_voting_system.Database.{RequestRow, Db, Pgx, Call}
use feature_voting_system.Database.Tables.{find_request, count_votes}
use feature_voting_system.Postgres.Votes.{insert_vote}
use feature_voting_system.Postgres.Transaction.Atomic.{Ends}
use feature_voting_system.Postgres.Votes.Insert.{add_vote, InsertedBy, insert_vote-Ends}
use feature_voting_system.Postgres.Votes.Read.{find_request-update}
use feature_voting_system.Postgres.Requests.{filter}
use feature_voting_system.Postgres.Ranking.{
  Mismatch, scan_mismatch, is_mismatched, get_vote_count_mismatches, fix_vote_count,
}
use feature_voting_system.Jobs.Reconcile.Repair.{fix_vote_count_sound}

Memᴰ-map :
    {A B : Type 0} (f : A → B) (y : B) (xs : List A) → Memᴰ y (map f xs) → (x : A) × (y ≡ f x)
Memᴰ-map f y [] m = elim m [ ]
Memᴰ-map f y (x ∷ xs) (Memᴰ.head e) = (x, e)
Memᴰ-map f y (x ∷ xs) (Memᴰ.tail m) = Memᴰ-map f y xs m

-- A mismatch is of a row, with the number of its votes.
mismatch_row :
    (pg : Pgx) (read : Call) (db : Db) (ms : List Mismatch) (m : Mismatch)
    → (get_vote_count_mismatches pg read db).0 ≡ ok ms
    → Memᴰ m ms
    → (row : RequestRow) × (m ≡ scan_mismatch pg db.votes row)
unfolding get_vote_count_mismatches
mismatch_row pg read db ms m found listed =
    Memᴰ-map (scan_mismatch pg db.votes) m (filter (is_mismatched db.votes) db.requests)
      (subst (Memᴰ m) (ground arith) listed)

committed :
    (pg : Pgx) (c : Call) (user request : Bytes) (db : Db) (out : Result Bool × Db)
    → Ends (InsertedBy pg c user request db) c.commit db out
    → out.0 ≡ ok true
    → InsertedBy pg c user request db true out.1
committed pg c user request db (ok b, db') ends h =
    subst (λ v. InsertedBy pg c user request db v db') {y = true} (cc) ends
committed pg c user request db (err e, db') ends h = cc

-- The counter of the request has the number that the query read, and there is one vote more.
abbrev pub IsStale : Pgx → Mismatch → Db → Type 0
IsStale pg m db =
    (i : ℕ) × (row : RequestRow) × (m.id ≡ pg.uuid_text i)
    × (find_request i db.requests ≡ some row)
    × (row.vote_count ≡ m.actual_count)
    × (row.vote_count +ℤ pos 1 ≡ pos (count_votes i db.votes))

recounted-IsStale :
    (pg : Pgx) (fix : Call) (now : ℤ) (u : ℕ) (x row : RequestRow) (db : Db)
    → fix.query_error ≡ none
    → find_request x.id db.requests ≡ some row
    → let m = scan_mismatch pg db.votes x in
      IsStale pg m (fix_vote_count pg fix m.id m.actual_count (add_vote now u x.id db)).1
unfolding ◌+ℤ◌
recounted-IsStale pg fix now u x row db sound found =
    let n = pos (count_votes x.id db.votes) in
    let after = add_vote now u x.id db in
    let fixed = ap (λ o. o.1) (fix_vote_count_sound pg fix x.id n after sound) in
    let there =
      find_request-update fix.now (λ _. n) x.id _ after.requests
        (find_request-update now (λ y. y.vote_count +ℤ pos 1) x.id row db.requests found) in
    subst (IsStale pg (scan_mismatch pg db.votes x)) (sym fixed)
      (x.id, _, refl, there, refl, ground arith)

-- A vote on a request of a mismatch, which commits between the query and the fix, is missing from
-- the counter when the fix is made: the vote is stored, and the counter is what the query had
-- counted, one less than the number of votes. The fix does not fail.
pub fix-IsStale :
    (pg : Pgx) (read insert fix : Call) (db : Db) (ms : List Mismatch) (m : Mismatch) (user : Bytes)
    → (get_vote_count_mismatches pg read db).0 ≡ ok ms
    → Memᴰ m ms
    → (insert_vote pg insert user m.id db).0 ≡ ok true
    → fix.query_error ≡ none
    → IsStale pg m
        (fix_vote_count pg fix m.id m.actual_count (insert_vote pg insert user m.id db).1).1
fix-IsStale pg read insert fix db ms m user found listed inserted sound =
    let (x, same) = mismatch_row pg read db ms m found listed in
    let (u, r, _, parsed, added) =
      committed pg insert user m.id db (insert_vote pg insert user m.id db)
        (insert_vote-Ends pg insert user m.id db) inserted in
    let here : r ≡ x.id =
      some-injective r x.id
        (sym parsed ∙ (ap (λ (v : Mismatch). pg.parse_uuid v.id) same ∙ pg.parse-text x.id)) in
    let stored : (insert_vote pg insert user m.id db).1 ≡ add_vote insert.now u x.id db =
      added.effect ∙ ap (λ i. add_vote insert.now u i db) here in
    subst (λ d. IsStale pg m (fix_vote_count pg fix m.id m.actual_count d).1) (sym stored)
      (subst
        (λ (v : Mismatch).
          IsStale pg v
            (fix_vote_count pg fix v.id v.actual_count (add_vote insert.now u x.id db)).1)
        (sym same)
        (recounted-IsStale pg fix insert.now u x added.row db sound
          (subst (λ i. find_request i db.requests ≡ some added.row) here added.found)))
