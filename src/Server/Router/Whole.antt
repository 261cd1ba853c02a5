-- ===== src/Server/Router/Whole.antt =====
-- Any number of requests to the whole API over PostgreSQL.
use mathlib.Core.Path.{subst}
use mathlib.Core.Bool.{false≢true}
use mathlib.Core.Option.{some-injective}
use feature_voting_system.Prelude.{
  ℕ, ◌≡◌, refl, sym, ◌∙◌, inl, inr, true, List, [], ◌∷◌, Option, some, Bytes, arith, Bool-cases,
}
use feature_voting_system.Errors.{Error, Result, ok}
use feature_voting_system.Http.{Request, Response, Body}
use feature_voting_system.Database.{Db, Pgx, Call}
use feature_voting_system.Database.Consistency.{IsConsistent, HasNoSelfVote}
use feature_voting_system.Postgres.Users.Emails.{HasUserKeys}
use feature_voting_system.Service.User.{Passwords, postgres_users}
use feature_voting_system.Service.Request.{postgres_requests}
use feature_voting_system.Service.Ranking.{postgres_ranking}
use feature_voting_system.Service.Vote.{VoteCalls, postgres_votes}
use feature_voting_system.Handler.Auth.{Tokens}
use feature_voting_system.Handler.Requests.{Digest}
use feature_voting_system.Middleware.RateLimit.{RateStore}
use feature_voting_system.Concurrent.{World, Reach, here, later}
use feature_voting_system.Concurrent.Invariant.{Reach-IsSafe}
use feature_voting_system.Server.{protected}
use feature_voting_system.Server.Protected.{protected-cases}
use feature_voting_system.Server.Router.{Endpoint, is_protected, Mux, unguarded, handle, serve}
use feature_voting_system.Server.Router.Guarded.{Found-cases}
use feature_voting_system.Server.Router.Wiring.{Json, Parts, api}
use feature_voting_system.Server.Router.Effects.{
  Leads, NamesUser, register-Leads, login-Leads, submit-Leads, list-Leads, get_by_id-Leads,
  upvote-Leads, remove_vote-Leads,
}

-- What the environment does while one request is served: the driver, the clock and the random
-- source in the calls of the handlers.
pub record Env : Type 0 where
  pub call : Call
  pub votes : VoteCalls
  pub passwords : Passwords
  pub tokens : Tokens
  pub digest : Digest
  pub json : Json
  pub postgres_ping : Option Error
  pub redis_ping : Option Error
  pub metrics_page : Request → Response (Body Bytes)

-- cmd/server/main.go makes all repositories of one pool.
abbrev pub postgres_parts : Pgx → Env → Parts Db
postgres_parts pg env = record {
  user_repo = postgres_users pg env.call;
  request_repo = postgres_requests pg env.call;
  ranking_repo = postgres_ranking pg env.call;
  vote_repo = postgres_votes pg env.votes;
  passwords = env.passwords;
  tokens = env.tokens;
  digest = env.digest;
  json = env.json;
  postgres_ping = env.postgres_ping;
  redis_ping = env.redis_ping;
  metrics_page = env.metrics_page;
}

module _ (pg : Pgx) (env : Env) (w : World) (r : Request) where
  -- The name of a user is needed behind the check of the token only.
  api-Leads :
      (e : Endpoint)
      → (is_protected e ≡ true → NamesUser pg r)
      → Leads pg w (api (postgres_parts pg env) e r w.db).1
  unfolding api
  api-Leads Endpoint.healthz names = (w, here, refl)
  api-Leads Endpoint.health names = (w, here, refl)
  api-Leads Endpoint.readyz names = (w, here, refl)
  api-Leads Endpoint.metrics names = (w, here, refl)
  api-Leads Endpoint.register names = register-Leads pg env.call w r env.passwords env.tokens
  api-Leads Endpoint.login names = login-Leads pg env.call w r env.passwords env.tokens
  api-Leads Endpoint.refresh names = (w, here, refl)
  api-Leads Endpoint.submit names = submit-Leads pg env.call w r
  api-Leads Endpoint.list names = list-Leads pg env.call w r env.digest
  api-Leads Endpoint.get_by_id names = get_by_id-Leads pg env.call w r
  api-Leads Endpoint.upvote names = upvote-Leads pg env.votes w r (names refl)
  api-Leads Endpoint.remove_vote names = remove_vote-Leads pg env.votes w r

Reach-trans : {pg : Pgx} {u v w : World} → Reach pg u v → Reach pg v w → Reach pg u w
Reach-trans p here = p
Reach-trans p (later q step) = later (Reach-trans p q) step

-- A request, and the moment at which it is served, in seconds.
pub record Arrival : Type 0 where
  pub env : Env
  pub now : ℕ
  pub request : Request

-- Access tokens are signed for the ids of users only.
abbrev pub SignsUsers : Pgx → (Bytes → Result Bytes) → Type 0
SignsUsers pg verify =
    (token user : Bytes) → verify token ≡ ok user → (u : ℕ) × (user ≡ pg.uuid_text u)

module _ {R : Type 0} (pg : Pgx) (mux : Mux) (verify : Bytes → Result Bytes)
    (store : RateStore R) where
  -- One request after the other.
  unfoldable pub serve_all : List Arrival → Db × R → Db × R
  serve_all [] s = s
  serve_all (a ∷ later_ones) s =
      serve_all later_ones
        (serve mux verify store a.now (api (postgres_parts pg a.env)) a.request s).1

  module _ (signs : SignsUsers pg verify) where
    handle-Leads :
        (env : Env) (now : ℕ) (w : World) (limits : R) (e : Endpoint) (r : Request)
        → Leads pg w
            (handle mux verify store now (api (postgres_parts pg env)) e r (w.db, limits)).1.0
    handle-Leads env now w limits e r =
        let a = api (postgres_parts pg env) in
        let out = handle mux verify store now a e r (w.db, limits) in
        elim (Bool-cases (is_protected e)) [
          | inr other ↦
              let plain : out ≡ unguarded mux verify store now a (a e) r (w.db, limits) =
                ground (arith, other) in
              subst (λ o. Leads pg w o.1.0) (sym plain)
                (api-Leads pg env w r e (λ h. absurd (false≢true (sym other ∙ h))))
          | inl guarded ↦
              let checked : out ≡ protected verify store now (a e) r (w.db, limits) =
                ground (arith, guarded) in
              subst (λ o. Leads pg w o.1.0) (sym checked)
                (elim (protected-cases verify store now (a e) r w.db limits) [
                  | inr (_, same) ↦ (w, here, sym same)
                  | inl (user, _, token, _, verified, _, state) ↦ subst (Leads pg w) (sym state) (
                      api-Leads pg env w (record r { context_user = some user }) e
                        (λ _ user' named.
                          subst (λ v. (u : ℕ) × (v ≡ pg.uuid_text u))
                            (some-injective user user' named) (signs token user verified)))
                ])
        ]

    -- Whatever a request does to the tables, steps of the world do, whatever the router makes of
    -- it and however the driver behaves; access tokens are signed for the ids of users only.
    pub serve-Leads :
        (a : Arrival) (w : World) (limits : R)
        → Leads pg w
            (serve mux verify store a.now
              (api (postgres_parts pg a.env))
              a.request
              (w.db, limits)).1.0
    unfolding serve
    serve-Leads a w limits = elim (Found-cases (mux a.request.method a.request.path)) [
      | inl (e, id, routed) ↦
          let routed_to : serve mux verify store a.now (api (postgres_parts pg a.env)) a.request
                (w.db, limits)
              ≡ handle mux verify store a.now (api (postgres_parts pg a.env)) e
                  (record a.request { path_id = id }) (w.db, limits) =
            ground (arith, routed) in
          subst (λ o. Leads pg w o.1.0) (sym routed_to)
            (handle-Leads a.env a.now w limits e (record a.request { path_id = id }))
      | inr (out, none_found) ↦ (w, here, ground (arith, none_found))
    ]

    serve_all-Leads :
        (arrivals : List Arrival) (w : World) (limits : R)
        → Leads pg w (serve_all arrivals (w.db, limits)).0
    unfolding serve_all
    serve_all-Leads [] w limits = (w, here, refl)
    serve_all-Leads (a ∷ later_ones) w limits =
        let out =
          (serve mux verify store a.now (api (postgres_parts pg a.env)) a.request
            (w.db, limits)).1 in
        let (w₁, first, effect) = serve-Leads a w limits in
        let (w₂, rest, effect') =
          subst (λ d. Leads pg w₁ (serve_all later_ones (d, out.1)).0) effect
            (serve_all-Leads later_ones w₁ out.1) in
        (w₂, Reach-trans first rest, effect')

    -- Whatever requests are served, one after the other, and however the driver behaves in each,
    -- the counters stay the numbers of votes, the keys of all three tables hold, that of emails
    -- up to the letters' case, and nobody has a vote on a request of their own; access tokens are
    -- signed for the ids of users only.
    pub serve_all-IsConsistent :
        (arrivals : List Arrival) (db : Db) (limits : R)
        → IsConsistent db
        → HasNoSelfVote db
        → HasUserKeys pg db
        → IsConsistent (serve_all arrivals (db, limits)).0
          × HasNoSelfVote (serve_all arrivals (db, limits)).0
          × HasUserKeys pg (serve_all arrivals (db, limits)).0
    serve_all-IsConsistent arrivals db limits consistent honest keys =
        let (w', steps, effect) =
          serve_all-Leads arrivals (record { db = db; checked = []; fixes = [] }) limits in
        let safe = Reach-IsSafe pg steps (record {
          user_keys = keys;
          consistent = consistent;
          no_self_vote = honest;
          checks_hold = tt;
          nothing_to_fix = refl;
        }) in
        (
          subst IsConsistent effect safe.consistent,
          subst HasNoSelfVote effect safe.no_self_vote,
          subst (HasUserKeys pg) effect safe.user_keys,
        )
