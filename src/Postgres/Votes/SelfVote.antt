-- ===== src/Postgres/Votes/SelfVote.antt =====
-- The statements of `VoteRepo` change no author, so a vote that was nobody's own stays so.
use feature_voting_system.Prelude.{
  ℕ, ◌≡◌, refl, ◌∙◌, false, List, [], ◌∷◌, ℤ, pos, ◌+ℤ◌, ◌-ℤ◌, max_ℤ, All, arith,
}
use feature_voting_system.Database.{RequestRow, Vote, Db}
use feature_voting_system.Database.Consistency.{is_author, HasNoSelfVote}
use feature_voting_system.Postgres.Votes.{update_request, bumped, delete_votes}
use feature_voting_system.Postgres.Votes.Insert.{add_vote}
use feature_voting_system.Postgres.Votes.Delete.{remove_vote}

pub is_author-update :
    (now : ℤ) (f : RequestRow → ℤ) (r a s : ℕ) (rows : List RequestRow)
    → is_author a s (update_request r (λ x. bumped now (f x) x) rows) ≡ is_author a s rows
is_author-update now f r a s [] = refl
is_author-update now f r a s (x ∷ rows) = ground (arith, is_author-update now f r a s rows)

update-no_author :
    (now : ℤ) (f : RequestRow → ℤ) (r : ℕ) (rows : List RequestRow) (votes : List Vote)
    → All (λ v. is_author v.user_id v.request_id rows ≡ false) votes
    → All
        (λ v.
          is_author v.user_id v.request_id (update_request r (λ x. bumped now (f x) x) rows)
          ≡ false)
        votes
update-no_author now f r rows [] h = tt
update-no_author now f r rows (v ∷ votes) h = (
  is_author-update now f r v.user_id v.request_id rows ∙ h.0,
  update-no_author now f r rows votes h.1,
)

delete-no_author :
    (u r : ℕ) (rows : List RequestRow) (votes : List Vote)
    → All (λ v. is_author v.user_id v.request_id rows ≡ false) votes
    → All (λ v. is_author v.user_id v.request_id rows ≡ false) (delete_votes u r votes)
delete-no_author u r rows [] h = tt
delete-no_author u r rows (v ∷ votes) h = ground (arith, delete-no_author u r rows votes h.1)

pub add_vote-HasNoSelfVote :
    (now : ℤ) (u r : ℕ) (db : Db)
    → is_author u r db.requests ≡ false
    → HasNoSelfVote db
    → HasNoSelfVote (add_vote now u r db)
add_vote-HasNoSelfVote now u r db other h =
    update-no_author now (λ x. x.vote_count +ℤ pos 1) r db.requests (add_vote now u r db).votes
      (other, h)

pub remove_vote-HasNoSelfVote :
    (now : ℤ) (u r : ℕ) (db : Db) → HasNoSelfVote db → HasNoSelfVote (remove_vote now u r db)
remove_vote-HasNoSelfVote now u r db h =
    update-no_author now (λ x. max_ℤ (x.vote_count -ℤ pos 1) (pos 0)) r db.requests
      (delete_votes u r db.votes) (delete-no_author u r db.requests db.votes h)
