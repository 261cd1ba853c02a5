-- ===== src/Concurrent/Safety.antt =====
-- What the invariants are, and what one effect keeps of them.
use mathlib.Core.Path.{subst}
use mathlib.Core.Bool.{false≢true}
use feature_voting_system.Prelude.{
  ℕ, ◌≡◌, refl, sym, ap, ◌∙◌, inl, inr, true, false, List, [], ◌∷◌, some, Bytes, pos, ℤ, ◌+ℤ◌, ◌-ℤ◌,
  max_ℤ, All, All-map, ◌==◌, ==_iff, arith, Bool-cases,
}
use feature_voting_system.Database.{UserRow, RequestRow, Vote, Db, Pgx}
use feature_voting_system.Database.Tables.{has_request, has_user}
use feature_voting_system.Database.Consistency.{RefersTo, IsConsistent, HasNoSelfVote, is_author}
use feature_voting_system.Postgres.Votes.{update_request, bumped}
use feature_voting_system.Postgres.Votes.Counts.{has_request-update}
use feature_voting_system.Postgres.Votes.Insert.{add_vote}
use feature_voting_system.Postgres.Votes.Delete.{remove_vote}
use feature_voting_system.Postgres.Votes.SelfVote.{
  is_author-update, add_vote-HasNoSelfVote, remove_vote-HasNoSelfVote,
}
use feature_voting_system.Postgres.Users.Emails.{HasUserKeys}
use feature_voting_system.Concurrent.{World}
use feature_voting_system.Concurrent.Effects.{Voted, Unvoted, Submitted}

-- The request is there, and the user is not its author.
abbrev pub IsChecked : Pgx → Db → ℕ × Bytes → Type 0
IsChecked pg db (u, request) =
    (r : ℕ)
    → pg.parse_uuid request ≡ some r
    → (has_request r db.requests ≡ true) × (is_author u r db.requests ≡ false)

pub record IsSafe (pg : Pgx) (w : World) : Type 0 where
  pub user_keys : HasUserKeys pg w.db
  pub consistent : IsConsistent w.db
  pub no_self_vote : HasNoSelfVote w.db
  pub checks_hold : All (IsChecked pg w.db) w.checked
  pub nothing_to_fix : w.fixes ≡ []

update-KnowsAuthors :
    (now : ℤ) (f : RequestRow → ℤ) (r : ℕ) (users : List UserRow) (rows : List RequestRow)
    → All (λ row. has_user row.author_id users ≡ true) rows
    → All
        (λ row. has_user row.author_id users ≡ true)
        (update_request r (λ x. bumped now (f x) x) rows)
update-KnowsAuthors now f r users [] h = tt
update-KnowsAuthors now f r users (x ∷ rows) h =
    ground (arith, update-KnowsAuthors now f r users rows h.1)

pub Voted-HasUserKeys :
    (pg : Pgx) (u : ℕ) (request : Bytes) (db db' : Db)
    → Voted pg u request db db'
    → HasUserKeys pg db
    → HasUserKeys pg db'
Voted-HasUserKeys pg u request db db' (inl same) h = subst (HasUserKeys pg) (sym same) h
Voted-HasUserKeys pg u request db db' (inr (r, now, parsed, effect)) h =
    subst (HasUserKeys pg) (sym effect)
      (h.0, h.1, update-KnowsAuthors now (λ x. x.vote_count +ℤ pos 1) r db.users db.requests h.2)

pub Unvoted-HasUserKeys :
    (pg : Pgx) (db db' : Db) → Unvoted db db' → HasUserKeys pg db → HasUserKeys pg db'
Unvoted-HasUserKeys pg db db' (inl same) h = subst (HasUserKeys pg) (sym same) h
Unvoted-HasUserKeys pg db db' (inr (u, r, now, effect)) h = subst (HasUserKeys pg) (sym effect) (
  h.0,
  h.1,
  update-KnowsAuthors now (λ x. max_ℤ (x.vote_count -ℤ pos 1) (pos 0)) r db.users db.requests h.2,
)

pub Submitted-HasUserKeys :
    (pg : Pgx) (db db' : Db) → Submitted db db' → HasUserKeys pg db → HasUserKeys pg db'
Submitted-HasUserKeys pg db db' (inl same) h = subst (HasUserKeys pg) (sym same) h
Submitted-HasUserKeys pg db db' (inr (row, fresh, known, effect)) h =
    subst (HasUserKeys pg) (sym effect) (h.0, h.1, (known, h.2))

-- Every request that was there is there, with its author.
abbrev pub Keeps : Db → Db → Type 0
Keeps db db' =
    (u r : ℕ)
    → has_request r db.requests ≡ true
    → (has_request r db'.requests ≡ true) × (is_author u r db'.requests ≡ is_author u r db.requests)

pub Keeps-IsChecked :
    (pg : Pgx) (db db' : Db) (cs : List (ℕ × Bytes))
    → Keeps db db'
    → All (IsChecked pg db) cs
    → All (IsChecked pg db') cs
Keeps-IsChecked pg db db' cs keeps h =
    All-map (IsChecked pg db) (IsChecked pg db') cs
      (λ c held r parsed.
        (let (there, other) = held r parsed in
          let (there', same) = keeps c.0 r there in (there', same ∙ other)))
      h

update_Keeps :
    (now : ℤ) (f : RequestRow → ℤ) (r : ℕ) (db : Db) (votes : List Vote)
    → Keeps db (record db {
      requests = update_request r (λ x. bumped now (f x) x) db.requests;
      votes = votes;
    })
update_Keeps now f r db votes u s there =
    (has_request-update now f r s db.requests ∙ there, is_author-update now f r u s db.requests)

pub Voted-Keeps :
    (pg : Pgx) (u : ℕ) (request : Bytes) (db db' : Db) → Voted pg u request db db' → Keeps db db'
Voted-Keeps pg u request db db' (inl same) =
    subst (Keeps db) (sym same) (λ u r there. (there, refl))
Voted-Keeps pg u request db db' (inr (r, now, parsed, effect)) =
    subst (Keeps db) (sym effect)
      (update_Keeps now (λ x. x.vote_count +ℤ pos 1) r db (add_vote now u r db).votes)

pub Unvoted-Keeps : (db db' : Db) → Unvoted db db' → Keeps db db'
Unvoted-Keeps db db' (inl same) = subst (Keeps db) (sym same) (λ u r there. (there, refl))
Unvoted-Keeps db db' (inr (u, r, now, effect)) = subst (Keeps db) (sym effect) (
    update_Keeps now (λ x. max_ℤ (x.vote_count -ℤ pos 1) (pos 0)) r db
      (remove_vote now u r db).votes)

pub Submitted-Keeps : (db db' : Db) → Submitted db db' → Keeps db db'
Submitted-Keeps db db' (inl same) = subst (Keeps db) (sym same) (λ u r there. (there, refl))
Submitted-Keeps db db' (inr (row, fresh, known, effect)) =
    subst (Keeps db) (sym effect) (λ u r there. elim (Bool-cases (r == row.id)) [
      | inl same ↦ absurd (
          false≢true (
            sym fresh
            ∙ ap (λ i. has_request i db.requests) (sym ((==_iff r row.id).0 same))
            ∙ there))
      | inr other ↦ (ground arith, ground arith)
    ])

pub Voted-HasNoSelfVote :
    (pg : Pgx) (u : ℕ) (request : Bytes) (db db' : Db)
    → IsChecked pg db (u, request)
    → Voted pg u request db db'
    → HasNoSelfVote db
    → HasNoSelfVote db'
Voted-HasNoSelfVote pg u request db db' checked (inl same) h = subst HasNoSelfVote (sym same) h
Voted-HasNoSelfVote pg u request db db' checked (inr (r, now, parsed, effect)) h =
    subst HasNoSelfVote (sym effect) (add_vote-HasNoSelfVote now u r db (checked r parsed).1 h)

pub Unvoted-HasNoSelfVote : (db db' : Db) → Unvoted db db' → HasNoSelfVote db → HasNoSelfVote db'
Unvoted-HasNoSelfVote db db' (inl same) h = subst HasNoSelfVote (sym same) h
Unvoted-HasNoSelfVote db db' (inr (u, r, now, effect)) h =
    subst HasNoSelfVote (sym effect) (remove_vote-HasNoSelfVote now u r db h)

none_by_author :
    (db db' : Db) (votes : List Vote)
    → Keeps db db'
    → All (RefersTo db.users db.requests) votes
    → All (λ v. is_author v.user_id v.request_id db.requests ≡ false) votes
    → All (λ v. is_author v.user_id v.request_id db'.requests ≡ false) votes
none_by_author db db' [] keeps refs h = tt
none_by_author db db' (v ∷ votes) keeps refs h = (
  (keeps v.user_id v.request_id (refs.0.1)).1 ∙ h.0,
  none_by_author db db' votes keeps refs.1 h.1,
)

pub Submitted-HasNoSelfVote :
    (db db' : Db)
    → Submitted db db'
    → All (RefersTo db.users db.requests) db.votes
    → HasNoSelfVote db
    → HasNoSelfVote db'
Submitted-HasNoSelfVote db db' (inl same) refs h = subst HasNoSelfVote (sym same) h
Submitted-HasNoSelfVote db db' (inr (row, fresh, known, effect)) refs h =
    subst HasNoSelfVote (sym effect) (
      none_by_author db (record db { requests = row ∷ db.requests }) db.votes
        (Submitted-Keeps db (record db { requests = row ∷ db.requests })
          (inr (row, fresh, known, refl)))
        refs h)
