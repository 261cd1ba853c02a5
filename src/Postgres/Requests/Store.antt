-- ===== src/Postgres/Requests/Store.antt =====
-- Storing a request and reading it again.
use feature_voting_system.Prelude.{
  ℕ, sym, ◌≡◌, refl, true, false, ◌∷◌, List, [], none, some, Bytes, pos, All, All-map, arith,
  Bool-cases, inl, inr, Option-cases,
}
use mathlib.Core.Path.{subst}
use feature_voting_system.Errors.{Sentinel, Error, error_is, ok, err}
use feature_voting_system.Database.{UserRow, RequestRow, Vote, Db, Pgx, Call}
use feature_voting_system.Database.Tables.{
  find_request, has_user, has_vote, has_request, count_votes,
}
use feature_voting_system.Database.Consistency.{RefersTo, IsConsistent}
use feature_voting_system.Postgres.Requests.{
  new_request, scan_row, insert_row, insert_feature_request, get_feature_request,
}

pub insert_feature_request_new :
    (pg : Pgx) (c : Call) (author title description : Bytes) (a : ℕ) (db : Db)
    → c.query_error ≡ none
    → pg.parse_uuid author ≡ some a
    → has_user a db.users ≡ true
    → has_request c.new_id db.requests ≡ false
    → insert_feature_request pg c author title description db ≡ (
      ok (scan_row pg (new_request c a title description) false),
      record db { requests = new_request c a title description ∷ db.requests },
    )
unfolding insert_feature_request
insert_feature_request_new pg c author title description a db sound parsed known fresh =
    ground arith

pub get_feature_request_found :
    (pg : Pgx) (c : Call) (id viewer : Bytes) (i v : ℕ) (row : RequestRow) (db : Db)
    → c.query_error ≡ none
    → pg.parse_uuid id ≡ some i
    → pg.parse_uuid viewer ≡ some v
    → find_request i db.requests ≡ some row
    → get_feature_request pg c id viewer db
      ≡ (ok (scan_row pg row (has_vote v row.id db.votes)), db)
unfolding get_feature_request
get_feature_request_found pg c id viewer i v row db sound pi pv found = ground arith

-- No vote refers to an id that no request has.
pub has_vote-fresh :
    (users : List UserRow) (requests : List RequestRow) (r v : ℕ) (votes : List Vote)
    → All (RefersTo users requests) votes
    → has_request r requests ≡ false
    → has_vote v r votes ≡ false
has_vote-fresh users requests r v [] h fresh = refl
has_vote-fresh users requests r v (x ∷ votes) h fresh =
    ground (arith, has_vote-fresh users requests r v votes h.1)

count_votes-fresh :
    (users : List UserRow) (requests : List RequestRow) (r : ℕ) (votes : List Vote)
    → All (RefersTo users requests) votes
    → has_request r requests ≡ false
    → count_votes r votes ≡ 0
count_votes-fresh users requests r [] h fresh = refl
count_votes-fresh users requests r (x ∷ votes) h fresh =
    ground (arith, count_votes-fresh users requests r votes h.1)

insert_row-IsConsistent :
    (pg : Pgx) (c : Call) (row : RequestRow) (db : Db)
    → row.vote_count ≡ pos 0
    → IsConsistent db
    → IsConsistent (insert_row pg c row db).1
insert_row-IsConsistent pg c row db zero h = elim (Bool-cases (has_request row.id db.requests)) [
  | inl taken ↦ rw taken h
  | inr fresh ↦ elim (Bool-cases (has_user row.author_id db.users)) [
    | inr unknown ↦ rw (fresh, unknown) h
    | inl known ↦
        rw (fresh, known)
          (record {
            counted = (
              ground (
                arith,
                count_votes-fresh db.users db.requests row.id db.votes h.references fresh,
              ),
              h.counted,
            );
            in_range = (ground arith, h.in_range);
            request_ids = (fresh, h.request_ids);
            one_vote_each = h.one_vote_each;
            references =
                All-map (RefersTo db.users db.requests) (RefersTo db.users (row ∷ db.requests))
                  db.votes (λ v r. (r.0, ground arith)) h.references;
          })
  ]
]

pub insert_feature_request-IsConsistent :
    (pg : Pgx) (c : Call) (author title description : Bytes) (db : Db)
    → IsConsistent db
    → IsConsistent (insert_feature_request pg c author title description db).1
unfolding insert_feature_request
insert_feature_request-IsConsistent pg c author title description db h =
    elim (Option-cases c.query_error) [
      | inr (m, failed) ↦ rw failed h
      | inl sound ↦ elim (Option-cases (pg.parse_uuid author)) [
        | inl bad ↦
            let same : (insert_feature_request pg c author title description db).1 ≡ db =
              ground arith in
            subst IsConsistent (sym same) h
        | inr (a, parsed) ↦
            let row = new_request c a title description in
            let same : insert_feature_request pg c author title description db
                ≡ insert_row pg c row db =
              ground arith in
            subst (λ o. IsConsistent o.1) (sym same) (insert_row-IsConsistent pg c row db refl h)
      ]
    ]

-- The method's errors hold none of the sentinels.
pub insert_feature_request-foreign :
    (pg : Pgx) (c : Call) (author title description : Bytes) (db : Db) (e : Error)
    → (insert_feature_request pg c author title description db).0 ≡ err e
    → error_is e Sentinel.validation ≡ false
unfolding insert_feature_request
insert_feature_request-foreign pg c author title description db e h = ground arith
