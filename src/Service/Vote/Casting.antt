-- ===== src/Service/Vote/Casting.antt =====
-- A vote through the service and the PostgreSQL repository.
use feature_voting_system.Prelude.{
  ℕ, suc, ◌≡◌, ◌≢◌, refl, ap, true, false, ◌&&◌, ◌||◌, List, some, Bytes, pos, ◌+ℤ◌, ◌≤ℤ◌, ◌-◌, ◌^◌,
  arith, bytes_eq, bytes_eq_iff, bytes_eq_refl, ◌==◌, if◌then◌else◌, Bool-cases, inl, inr,
}
use feature_voting_system.Errors.{Sentinel, sentinel, ok, err}
use feature_voting_system.Database.{RequestRow, Vote, Db, Pgx, IsSound}
use feature_voting_system.Database.Tables.{find_request, has_user, has_vote, count_votes}
use feature_voting_system.Database.Consistency.{IsConsistent, find_request-All, IsCounted}
use feature_voting_system.Postgres.Votes.Insert.{add_vote, insert_vote_new, insert_vote_again}
use feature_voting_system.Postgres.Votes.Read.{
  get_vote_count_found, get_request_author_id_found, find_request-update,
}
use feature_voting_system.Service.Vote.{VoteCalls, postgres_votes, upvote}

-- Ids keep apart in their text form.
pub uuid_text-ne : (pg : Pgx) (a b : ℕ) → a ≢ b → bytes_eq (pg.uuid_text a) (pg.uuid_text b) ≡ false
uuid_text-ne pg a b h = elim (Bool-cases (bytes_eq (pg.uuid_text a) (pg.uuid_text b))) [
  | inl same ↦
      let texts = (bytes_eq_iff (pg.uuid_text a) (pg.uuid_text b)).0 same in
      absurd (h (cc (pg.parse-text a, pg.parse-text b, ap pg.parse_uuid texts)))
  | inr other ↦ other
]

has_vote_known :
    (u r a s : ℕ) (votes : List Vote)
    → has_vote u r votes ≡ true
    → has_vote a s votes ≡ ((a == u && s == r) || has_vote a s votes)
has_vote_known u r a s votes h = ground arith

pub record AreSound (calls : VoteCalls) : Type 0 where
  pub author : IsSound calls.author
  pub write : IsSound calls.write
  pub count : IsSound calls.count

-- The author of a request cannot vote on it: where the query for the author does not fail, the
-- call is refused as a vote on one's own request and writes nothing.
pub upvote_self :
    (pg : Pgx) (calls : VoteCalls) (request : Bytes) (r : ℕ) (row : RequestRow) (db : Db)
    → IsSound calls.author
    → pg.parse_uuid request ≡ some r
    → find_request r db.requests ≡ some row
    → upvote (postgres_votes pg calls) (pg.uuid_text row.author_id) request db
      ≡ (err (sentinel Sentinel.self_vote), db)
unfolding upvote
upvote_self pg calls request r row db sound parsed found = ground (
  arith,
  get_request_author_id_found pg calls.author request r row db sound.queries parsed found,
  bytes_eq_refl (pg.uuid_text row.author_id),
)

module _ (pg : Pgx) (calls : VoteCalls) (request : Bytes) (u r : ℕ) (row : RequestRow) (db : Db)
    (sound : AreSound calls) (parsed : pg.parse_uuid request ≡ some r)
    (found : find_request r db.requests ≡ some row) (other : row.author_id ≢ u) where
  pub upvote_again :
      has_vote u r db.votes ≡ true
      → upvote (postgres_votes pg calls) (pg.uuid_text u) request db
        ≡ (ok (record { request_id = request; vote_count = row.vote_count; user_voted = true }), db)
  unfolding upvote
  upvote_again there = ground (
    arith,
    get_request_author_id_found pg calls.author request r row db sound.author.queries parsed found,
    uuid_text-ne pg row.author_id u other,
    insert_vote_again pg calls.write (pg.uuid_text u) request u r db sound.write (pg.parse-text u)
        parsed there,
    get_vote_count_found pg calls.count request r row db sound.count.queries parsed found,
  )

  pub upvote_new :
      has_user u db.users ≡ true
      → row.vote_count +ℤ pos 1 ≤ℤ pos (2 ^ 31 - 1)
      → has_vote u r db.votes ≡ false
      → upvote (postgres_votes pg calls) (pg.uuid_text u) request db ≡ (
        ok (record {
          request_id = request;
          vote_count = row.vote_count +ℤ pos 1;
          user_voted = true;
        }),
        add_vote calls.write.now u r db,
      )
  unfolding upvote
  upvote_new known fits new =
      let db' = add_vote calls.write.now u r db in
      let found' =
        find_request-update calls.write.now (λ x. x.vote_count +ℤ pos 1) r row db.requests found in
      ground (
        arith,
        get_request_author_id_found pg calls.author request r row db sound.author.queries parsed
            found,
        uuid_text-ne pg row.author_id u other,
        insert_vote_new pg calls.write (pg.uuid_text u) request u r row db sound.write
            (pg.parse-text u) parsed known found fits new,
        get_vote_count_found pg calls.count request r _ db' sound.count.queries parsed found',
      )

  -- Where the driver does not fail, a vote of a known user on a request of another author is
  -- counted once: the reported count is afterwards the number of votes on the request, it has
  -- grown by one unless the user had voted already, and the votes are those before and this one.
  -- The tables are consistent before, and the counter has room for one more.
  pub upvote_lem :
      IsConsistent db
      → has_user u db.users ≡ true
      → row.vote_count +ℤ pos 1 ≤ℤ pos (2 ^ 31 - 1)
      → let (out, db') = upvote (postgres_votes pg calls) (pg.uuid_text u) request db in
        (out
          ≡ ok (record {
            request_id = request;
            vote_count = pos (count_votes r db'.votes);
            user_voted = true;
          }))
        × (count_votes r db'.votes ≡ (
            if has_vote u r db.votes then count_votes r db.votes else suc (count_votes r db.votes)))
        × ((a s : ℕ) → has_vote a s db'.votes ≡ ((a == u && s == r) || has_vote a s db.votes))
  upvote_lem valid known fits =
      let (counted, id) =
        find_request-All (IsCounted db.votes) r db.requests {row = row} valid.counted found in
      elim (Bool-cases (has_vote u r db.votes)) [
        | inl there ↦
            rw (upvote_again there)
              (ground arith, ground arith, λ a s. has_vote_known u r a s db.votes there)
        | inr new ↦
            rw (upvote_new known fits new) (unfold ◌+ℤ◌ in ground arith, ground arith, λ a s. refl)
      ]
