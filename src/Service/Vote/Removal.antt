-- ===== src/Service/Vote/Removal.antt =====
-- The removal of a vote through the service and the PostgreSQL repository.
use feature_voting_system.Prelude.{
  ℕ, suc, ◌≡◌, true, false, ◌&&◌, not, List, some, Bytes, pos, ◌-ℤ◌, max_ℤ, arith, ◌==◌,
  if◌then◌else◌, Bool-cases, inl, inr,
}
use feature_voting_system.Errors.{ok}
use feature_voting_system.Database.{RequestRow, Vote, Db, Pgx}
use feature_voting_system.Database.Tables.{find_request, has_vote, count_votes}
use feature_voting_system.Database.Consistency.{IsConsistent, find_request-All, IsCounted}
use feature_voting_system.Postgres.Votes.Counts.{count-delete_self}
use feature_voting_system.Postgres.Votes.Delete
use feature_voting_system.Postgres.Votes.Delete.{delete_vote_present, delete_vote_absent}
use feature_voting_system.Postgres.Votes.Read.{
  get_vote_count_found, get_request_author_id_found, find_request-update, has_vote-delete_eq,
}
use feature_voting_system.Service.Vote.{VoteCalls, postgres_votes, remove_vote}
use feature_voting_system.Service.Vote.Casting.{AreSound}

has_vote_unknown :
    (u r a s : ℕ) (votes : List Vote)
    → has_vote u r votes ≡ false
    → has_vote a s votes ≡ (not (a == u && s == r) && has_vote a s votes)
has_vote_unknown u r a s votes h = ground arith

module _ (pg : Pgx) (calls : VoteCalls) (request : Bytes) (u r : ℕ) (row : RequestRow) (db : Db)
    (sound : AreSound calls) (parsed : pg.parse_uuid request ≡ some r)
    (found : find_request r db.requests ≡ some row) where
  remove_vote_absent :
      has_vote u r db.votes ≡ false
      → remove_vote (postgres_votes pg calls) (pg.uuid_text u) request db ≡ (
        ok (record { request_id = request; vote_count = row.vote_count; user_voted = false }),
        db,
      )
  unfolding remove_vote
  remove_vote_absent absent = ground (
    arith,
    get_request_author_id_found pg calls.author request r row db sound.author.queries parsed found,
    delete_vote_absent pg calls.write (pg.uuid_text u) request u r db sound.write (pg.parse-text u)
        parsed absent,
    get_vote_count_found pg calls.count request r row db sound.count.queries parsed found,
  )

  remove_vote_present :
      has_vote u r db.votes ≡ true
      → remove_vote (postgres_votes pg calls) (pg.uuid_text u) request db ≡ (
        ok (record {
          request_id = request;
          vote_count = max_ℤ (row.vote_count -ℤ pos 1) (pos 0);
          user_voted = false;
        }),
        Delete.remove_vote calls.write.now u r db,
      )
  unfolding remove_vote
  remove_vote_present there =
      let db' = Delete.remove_vote calls.write.now u r db in
      let found' =
        find_request-update calls.write.now (λ x. max_ℤ (x.vote_count -ℤ pos 1) (pos 0)) r row
          db.requests found in
      ground (
        arith,
        get_request_author_id_found pg calls.author request r row db sound.author.queries parsed
            found,
        delete_vote_present pg calls.write (pg.uuid_text u) request u r db sound.write
            (pg.parse-text u) parsed there,
        get_vote_count_found pg calls.count request r _ db' sound.count.queries parsed found',
      )

  -- Where the driver does not fail and the tables are consistent, the removal of a vote from a
  -- known request succeeds: the reported count is afterwards the number of votes on the request,
  -- it has fallen by one if there was a vote, and the votes are those before without this one.
  pub remove_vote_lem :
      IsConsistent db
      → let (out, db') = remove_vote (postgres_votes pg calls) (pg.uuid_text u) request db in
        (out
          ≡ ok (record {
            request_id = request;
            vote_count = pos (count_votes r db'.votes);
            user_voted = false;
          }))
        × ((if has_vote u r db.votes
              then suc (count_votes r db'.votes)
              else count_votes r db'.votes)
            ≡ count_votes r db.votes)
        × ((a s : ℕ) → has_vote a s db'.votes ≡ (not (a == u && s == r) && has_vote a s db.votes))
  remove_vote_lem valid =
      let (counted, id) =
        find_request-All (IsCounted db.votes) r db.requests {row = row} valid.counted found in
      elim (Bool-cases (has_vote u r db.votes)) [
        | inl there ↦ rw (remove_vote_present there) (
          unfold ◌-ℤ◌ in ground (arith, count-delete_self u r db.votes valid.one_vote_each there),
          ground (arith, count-delete_self u r db.votes valid.one_vote_each there),
          λ a s. has_vote-delete_eq u r a s db.votes,
        )
        | inr absent ↦
            rw (remove_vote_absent absent)
              (ground arith, ground arith, λ a s. has_vote_unknown u r a s db.votes absent)
      ]
