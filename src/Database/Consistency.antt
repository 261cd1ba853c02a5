-- ===== src/Database/Consistency.antt =====
-- What the tables promise together: the denormalised counter is the number of vote rows, the
-- primary key of `votes` holds, and so do its foreign keys.
use mathlib.Core.Path.{subst}
use mathlib.Core.Option.{some-injective}
use feature_voting_system.Prelude.{
  ℕ, ◌≡◌, refl, ap, ◌∙◌, Bool, true, false, List, [], ◌∷◌, none, some, pos, IsInt32, All, ◌==◌,
  ==_iff, Bool-cases, inl, inr, arith,
}
use feature_voting_system.Database.Tables.{
  UserRow, RequestRow, Vote, Db, has_user, has_request, has_vote, count_votes, find_request,
}

abbrev pub IsCounted : List Vote → RequestRow → Type 0
IsCounted votes row = row.vote_count ≡ pos (count_votes row.id votes)

-- No user has two votes on one request.
abbrev pub HasOneVoteEach : List Vote → Type 0
HasOneVoteEach [] = Unit
HasOneVoteEach (v ∷ vs) = (has_vote v.user_id v.request_id vs ≡ false) × HasOneVoteEach vs

abbrev pub RefersTo : List UserRow → List RequestRow → Vote → Type 0
RefersTo users requests v =
    (has_user v.user_id users ≡ true) × (has_request v.request_id requests ≡ true)

-- The primary key of `feature_requests`.
abbrev pub HasUniqueIds : List RequestRow → Type 0
HasUniqueIds [] = Unit
HasUniqueIds (x ∷ rows) = (has_request x.id rows ≡ false) × HasUniqueIds rows

pub record IsConsistent (db : Db) : Type 0 where
  pub counted : All (IsCounted db.votes) db.requests
  pub in_range : All (λ row. IsInt32 row.vote_count) db.requests
  pub request_ids : HasUniqueIds db.requests
  pub one_vote_each : HasOneVoteEach db.votes
  pub references : All (RefersTo db.users db.requests) db.votes

-- What holds of every row holds of the row that a query finds.
pub find_request-All :
    (P : RequestRow → Type 0) (i : ℕ) (rows : List RequestRow) {row : RequestRow}
    → All P rows
    → find_request i rows ≡ some row
    → P row × (i ≡ row.id)
find_request-All P i [] h e = cc
find_request-All P i (x ∷ rows) h e = elim (Bool-cases (i == x.id)) [
  | inl same ↦
      let here = some-injective x _ (rw same at e) in
      (subst P here h.0, (==_iff i x.id).0 same ∙ ap (λ (y : RequestRow). y.id) here)
  | inr other ↦ find_request-All P i rows h.1 (rw other at e)
]

pub has_request-find :
    (i : ℕ) (rows : List RequestRow)
    → has_request i rows ≡ true
    → (row : RequestRow) × (find_request i rows ≡ some row)
has_request-find i [] e = cc
has_request-find i (x ∷ rows) e = elim (Bool-cases (i == x.id)) [
  | inl same ↦ (x, rw same)
  | inr other ↦ let (row, found) = has_request-find i rows (rw other at e) in (row, rw other found)
]

pub has_request-none :
    (i : ℕ) (rows : List RequestRow) → find_request i rows ≡ none → has_request i rows ≡ false
has_request-none i [] e = refl
has_request-none i (x ∷ rows) e = ground (arith, has_request-none i rows)

pub has_request-some :
    (i : ℕ) (rows : List RequestRow) {row : RequestRow}
    → find_request i rows ≡ some row
    → has_request i rows ≡ true
has_request-some i [] e = cc
has_request-some i (x ∷ rows) {row} e = ground (arith, has_request-some i rows {row = row})

-- Is `u` the author of request `r`?
abbrev pub is_author : ℕ → ℕ → List RequestRow → Bool
is_author u r rows = elim (find_request r rows) [ none ↦ false | some row ↦ u == row.author_id ]

-- Nobody votes on a request of their own.
abbrev pub HasNoSelfVote : Db → Type 0
HasNoSelfVote db = All (λ v. is_author v.user_id v.request_id db.requests ≡ false) db.votes
