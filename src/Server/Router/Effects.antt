-- ===== src/Server/Router/Effects.antt =====
-- What a served request may do to the tables: the routes over PostgreSQL.
use feature_voting_system.Prelude.{ℕ, ◌≡◌, sym, ap, ◌∙◌, inl, inr, some, Bytes, arith, Option-cases}
use feature_voting_system.Http.{Request}
use feature_voting_system.Database.{Db, Pgx, Call}
use feature_voting_system.Postgres.Requests.{
  Listing, ListParams, get_feature_request, list_requests, list_requests_by_trending,
}
use feature_voting_system.Postgres.Users.Emails.{get_user_by_email-pure}
use feature_voting_system.Service.User.{Passwords, postgres_users}
use feature_voting_system.Service.Request.{postgres_requests}
use feature_voting_system.Service.Ranking
use feature_voting_system.Service.Ranking.{postgres_ranking}
use feature_voting_system.Service.Vote
use feature_voting_system.Service.Vote.{VoteCalls, postgres_votes}
use feature_voting_system.Handler.Auth
use feature_voting_system.Handler.Auth.{Tokens}
use feature_voting_system.Handler.Requests
use feature_voting_system.Handler.Requests.{Digest}
use feature_voting_system.Handler.Votes
use feature_voting_system.Handler.Auth.Writes.{register-writes, login-pure}
use feature_voting_system.Handler.Requests.Writes.{submit-writes, get_by_id-pure, list-pure}
use feature_voting_system.Handler.Votes.Writes.{upvote-writes, remove_vote-writes}
use feature_voting_system.Concurrent.{World, Reach, here, later, register, submit}
use feature_voting_system.Concurrent.Refinement.{upvote-Reach, remove_vote-Reach}

-- Steps lead from a world to one with these tables.
abbrev pub Leads : Pgx → World → Db → Type 0
Leads pg w db' = (w' : World) × Reach pg w w' × (w'.db ≡ db')

pub same-Leads : (pg : Pgx) (w : World) (db' : Db) → db' ≡ w.db → Leads pg w db'
same-Leads pg w db' same = (w, here, sym same)

get_feature_request-pure :
    (pg : Pgx) (c : Call) (id viewer : Bytes) (db : Db)
    → (get_feature_request pg c id viewer db).1 ≡ db
unfolding get_feature_request
get_feature_request-pure pg c id viewer db = elim (Option-cases c.query_error) [
  | inl sound ↦ ground (arith, sound)
  | inr (m, failed) ↦ ground (arith, failed)
]

list_requests-pure :
    (l : Listing) (pg : Pgx) (c : Call) (params : ListParams) (db : Db)
    → (list_requests l pg c params db).1 ≡ db
unfolding list_requests
list_requests-pure l pg c params db = elim (Option-cases c.query_error) [
  | inr (m, failed) ↦ ground (arith, failed)
  | inl sound ↦ elim (Option-cases (pg.parse_uuid params.viewer_id)) [
    | inl nobody ↦ ground (arith, sound, nobody)
    | inr (viewer, parsed) ↦ ground (arith, sound, parsed)
  ]
]

fetch-pure :
    (pg : Pgx) (c : Call) (sort : Bytes) (params : ListParams) (db : Db)
    → (Ranking.fetch (postgres_ranking pg c) sort params db).1 ≡ db
unfolding list_requests_by_trending
fetch-pure pg c sort params db = ground (
  arith,
  list_requests-pure Listing.top pg c params db,
  list_requests-pure Listing.new pg c params db,
)

module _ (pg : Pgx) (c : Call) (w : World) (r : Request) where
  pub register-Leads :
      (auth : Passwords) (tokens : Tokens)
      → Leads pg w (Auth.register (postgres_users pg c) auth tokens r w.db).1
  register-Leads auth tokens = elim (register-writes (postgres_users pg c) auth tokens r w.db) [
    | inl same ↦ (w, here, sym same)
    | inr (email, hash, wrote) ↦ (_, later here (register c email hash), sym wrote)
  ]

  pub login-Leads :
      (auth : Passwords) (tokens : Tokens)
      → Leads pg w (Auth.login (postgres_users pg c) auth tokens r w.db).1
  login-Leads auth tokens = (
    w,
    here,
    sym (
        login-pure (postgres_users pg c) auth tokens r w.db
          (λ email. get_user_by_email-pure pg c email w.db)),
  )

  pub submit-Leads : Leads pg w (Requests.submit (postgres_requests pg c) r w.db).1
  submit-Leads = elim (submit-writes (postgres_requests pg c) r w.db) [
    | inl same ↦ (w, here, sym same)
    | inr (author, title, description, wrote) ↦
        (_, later here (submit c author title description), sym wrote)
  ]

  pub list-Leads :
      (digest : Digest) → Leads pg w (Requests.list digest (postgres_ranking pg c) r w.db).1
  list-Leads digest = (
    w,
    here,
    sym (
        list-pure digest (postgres_ranking pg c) r w.db
          (λ sort params. fetch-pure pg c sort params w.db)),
  )

  pub get_by_id-Leads : Leads pg w (Requests.get_by_id (postgres_requests pg c) r w.db).1
  get_by_id-Leads = (
    w,
    here,
    sym (
        get_by_id-pure (postgres_requests pg c) r w.db
          (λ id viewer. get_feature_request-pure pg c id viewer w.db)),
  )

-- Who is in the context has the text of a UUID, as the `sub` of a token has.
abbrev pub NamesUser : Pgx → Request → Type 0
NamesUser pg r = (user : Bytes) → r.context_user ≡ some user → (u : ℕ) × (user ≡ pg.uuid_text u)

module _ (pg : Pgx) (calls : VoteCalls) (w : World) (r : Request) where
  pub upvote-Leads : NamesUser pg r → Leads pg w (Votes.upvote (postgres_votes pg calls) r w.db).1
  upvote-Leads names = elim (upvote-writes (postgres_votes pg calls) r w.db) [
    | inl same ↦ (w, here, sym same)
    | inr (user, named, wrote) ↦
        let (u, text) = names user named in
        let (w', steps, effect) = upvote-Reach pg calls w u r.path_id in
        (
          w',
          steps,
          effect
              ∙ sym (
                  wrote
                  ∙ ap (λ v. (Vote.upvote (postgres_votes pg calls) v r.path_id w.db).1) text),
        )
  ]

  pub remove_vote-Leads : Leads pg w (Votes.remove_vote (postgres_votes pg calls) r w.db).1
  remove_vote-Leads = elim (remove_vote-writes (postgres_votes pg calls) r w.db) [
    | inl same ↦ (w, here, sym same)
    | inr (user, named, wrote) ↦
        let (w', steps, effect) = remove_vote-Reach pg calls w user r.path_id in
        (w', steps, effect ∙ sym wrote)
  ]
