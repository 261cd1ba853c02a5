-- ===== src/Postgres/Votes/Counts.antt =====
-- The denormalised counter against the rows of `votes`, under each statement.
use feature_voting_system.Prelude.{
  ℕ, suc, ◌≡◌, ◌≢◌, refl, true, false, [], ◌∷◌, List, ℤ, pos, ◌+ℤ◌, ◌-ℤ◌, max_ℤ, IsInt32, All,
  arith, ltb,
}
use feature_voting_system.Database.{RequestRow, UserRow, Vote}
use feature_voting_system.Database.Tables.{has_request, has_vote, count_votes}
use feature_voting_system.Database.Consistency.{IsCounted, HasOneVoteEach, RefersTo, HasUniqueIds}
use feature_voting_system.Postgres.Votes.{update_request, bumped, delete_votes, count_pair}

-- A new vote on `r` and one more on the counter of `r`.
pub increment-IsCounted :
    (now : ℤ) (v : Vote) (votes : List Vote) (rows : List RequestRow)
    → All (IsCounted votes) rows
    → All
        (IsCounted (v ∷ votes))
        (update_request v.request_id (λ x. bumped now (x.vote_count +ℤ pos 1) x) rows)
unfolding ◌+ℤ◌
increment-IsCounted now v votes [] h = tt
increment-IsCounted now v votes (x ∷ rows) h =
    ground (arith, increment-IsCounted now v votes rows h.1)

pub delete_absent :
    (u r : ℕ) (votes : List Vote) → has_vote u r votes ≡ false → delete_votes u r votes ≡ votes
delete_absent u r [] h = refl
delete_absent u r (v ∷ votes) h = ground (arith, delete_absent u r votes)

-- A vote that is there once: without it the count is one less.
pub count-delete_self :
    (u r : ℕ) (votes : List Vote)
    → HasOneVoteEach votes
    → has_vote u r votes ≡ true
    → count_votes r votes ≡ suc (count_votes r (delete_votes u r votes))
count-delete_self u r [] h e = ground arith
count-delete_self u r (v ∷ votes) h e =
    ground (arith, count-delete_self u r votes h.1, delete_absent u r votes)

pub count-delete_ne :
    (u r s : ℕ) (votes : List Vote)
    → s ≢ r
    → count_votes s (delete_votes u r votes) ≡ count_votes s votes
count-delete_ne u r s [] h = refl
count-delete_ne u r s (v ∷ votes) h = ground (arith, count-delete_ne u r s votes h)

-- The vote of `u` on `r` removed, and one less on the counter of `r`: the clamp at 0 is not met.
pub decrement-IsCounted :
    (now : ℤ) (u r : ℕ) (votes : List Vote) (rows : List RequestRow)
    → HasOneVoteEach votes
    → has_vote u r votes ≡ true
    → All (IsCounted votes) rows
    → All
        (IsCounted (delete_votes u r votes))
        (update_request r (λ x. bumped now (max_ℤ (x.vote_count -ℤ pos 1) (pos 0)) x) rows)
unfolding ◌-ℤ◌
decrement-IsCounted now u r votes [] one e h = tt
decrement-IsCounted now u r votes (x ∷ rows) one e h = ground (
  arith,
  decrement-IsCounted now u r votes rows one e h.1,
  count-delete_self u r votes one e,
  count-delete_ne u r x.id votes,
)

-- The rows that `DELETE` reports are none exactly when there was no such vote.
pub count_pair-pos :
    (u r : ℕ) (votes : List Vote) → ltb 0 (count_pair u r votes) ≡ has_vote u r votes
count_pair-pos u r [] = refl
count_pair-pos u r (v ∷ votes) = ground (arith, count_pair-pos u r votes)

pub has_vote-delete :
    (u r a s : ℕ) (votes : List Vote)
    → has_vote a s votes ≡ false
    → has_vote a s (delete_votes u r votes) ≡ false
has_vote-delete u r a s [] h = refl
has_vote-delete u r a s (v ∷ votes) h = ground (arith, has_vote-delete u r a s votes)

pub has_vote-delete_self :
    (u r : ℕ) (votes : List Vote) → has_vote u r (delete_votes u r votes) ≡ false
has_vote-delete_self u r [] = refl
has_vote-delete_self u r (v ∷ votes) = ground (arith, has_vote-delete_self u r votes)

pub delete-HasOneVoteEach :
    (u r : ℕ) (votes : List Vote) → HasOneVoteEach votes → HasOneVoteEach (delete_votes u r votes)
delete-HasOneVoteEach u r [] h = tt
delete-HasOneVoteEach u r (v ∷ votes) h = ground (
  arith,
  delete-HasOneVoteEach u r votes h.1,
  has_vote-delete u r v.user_id v.request_id votes h.0,
)

-- Updates of counters change no id, so every reference still holds.
pub has_request-update :
    (now : ℤ) (f : RequestRow → ℤ) (r i : ℕ) (rows : List RequestRow)
    → has_request i (update_request r (λ x. bumped now (f x) x) rows) ≡ has_request i rows
has_request-update now f r i [] = refl
has_request-update now f r i (x ∷ rows) = ground (arith, has_request-update now f r i rows)

pub update-RefersTo :
    (now : ℤ) (f : RequestRow → ℤ) (r : ℕ) (users : List UserRow) (rows : List RequestRow)
    (votes : List Vote)
    → All (RefersTo users rows) votes
    → All (RefersTo users (update_request r (λ x. bumped now (f x) x) rows)) votes
update-RefersTo now f r users rows [] h = tt
update-RefersTo now f r users rows (v ∷ votes) h = ground (
  arith,
  has_request-update now f r v.request_id rows,
  update-RefersTo now f r users rows votes h.1,
)

pub delete-RefersTo :
    (u r : ℕ) (users : List UserRow) (rows : List RequestRow) (votes : List Vote)
    → All (RefersTo users rows) votes
    → All (RefersTo users rows) (delete_votes u r votes)
delete-RefersTo u r users rows [] h = tt
delete-RefersTo u r users rows (v ∷ votes) h =
    ground (arith, delete-RefersTo u r users rows votes h.1)

-- A counter is written only where the new value fits the column; a row of the same id has the
-- same count.
pub update-in_range :
    (now : ℤ) (f : RequestRow → ℤ) (r : ℕ) (votes : List Vote) (rows : List RequestRow)
    → ((x : RequestRow) → r ≡ x.id → IsCounted votes x → IsInt32 x.vote_count → IsInt32 (f x))
    → All (IsCounted votes) rows
    → All (λ x. IsInt32 x.vote_count) rows
    → All (λ x. IsInt32 x.vote_count) (update_request r (λ x. bumped now (f x) x) rows)
update-in_range now f r votes [] fits c h = tt
update-in_range now f r votes (x ∷ rows) fits c h =
    ground (arith, fits x, update-in_range now f r votes rows fits c.1 h.1)

pub update-HasUniqueIds :
    (now : ℤ) (f : RequestRow → ℤ) (r : ℕ) (rows : List RequestRow)
    → HasUniqueIds rows
    → HasUniqueIds (update_request r (λ x. bumped now (f x) x) rows)
update-HasUniqueIds now f r [] h = tt
update-HasUniqueIds now f r (x ∷ rows) h =
    ground (arith, has_request-update now f r x.id rows, update-HasUniqueIds now f r rows h.1)
