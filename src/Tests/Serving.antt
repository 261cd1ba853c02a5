-- ===== src/Tests/Serving.antt =====
-- Requests to the whole server, and the work beside them.
use feature_voting_system.Prelude.{
  ℕ, suc, ◌+◌, ◌≡◌, ◌⊎◌, refl, sym, ap, List, [], ◌∷◌, ◌++◌, none, some, Bytes, codes, ℤ, pos, ◌+ℤ◌,
  ◌-ℤ◌, arith, length, bytes_eq, if◌then◌else◌, ◌&&◌,
}
use feature_voting_system.Errors.{Result, ok}
use feature_voting_system.Http.{Request, Response, Body, write_json, empty}
use feature_voting_system.Http.Writer.{
  Handler, returned, panicked, write_header, header_set, is_informational,
}
use feature_voting_system.Http.Writer.Answer.{SameAnswer}
use feature_voting_system.Database.{Db}
use feature_voting_system.Middleware.Observability.{Metrics, count_request}
use feature_voting_system.Middleware.Observability.Balance.{
  MetricsLaws, Phase, enters, leaves, entered, left, returned_as, phases, phases-balanced,
}
use feature_voting_system.Handler.Votes
use feature_voting_system.Middleware.Auth.{auth}
use feature_voting_system.Text.Split.{split}
use feature_voting_system.Server.{protected, global}
use feature_voting_system.Server.Global.{answered, IsError, line, global-cases}
use feature_voting_system.Server.Router.{serve, server}
use feature_voting_system.Server.Router.Guarded.{
  IsSegment, RanFor, Refused, for_user, requests-guarded,
}
use feature_voting_system.Server.Router.Reached.{serve-upvote, server-serve}
use feature_voting_system.Server.Router.Wiring.{Parts, api}
use feature_voting_system.Server.Router.Effects.{Leads}
use feature_voting_system.Server.Router.Whole.{
  Env, Arrival, postgres_parts, SignsUsers, serve-Leads,
}
use feature_voting_system.Server.System.{Work, Stores, IsSound, work_all, work_all-IsSound}
use feature_voting_system.Tests.Data.{
  unary, pgx, call, calls, db, db-IsConsistent, db-HasUserKeys, vote_request,
}
use feature_voting_system.Jobs.Trending.{SortedSets}
use feature_voting_system.Handler.Auth.{tokens_of}
use feature_voting_system.Tests.Crypto.{counters, passwords, sent}
use feature_voting_system.Tests.Tokens.{jwt, service}
use feature_voting_system.Tests.Routing.{by_parts, requests_mux}
use feature_voting_system.Tests.Routing.Complete.{requests_mux-MuxLaws}

-- A registry: its gauge, and its counter as the labels of each increment.
abbrev Registry : Type 0
Registry = ℤ × List (Bytes × Bytes × Bytes)

abbrev tally : Bytes → Bytes → Bytes → List (Bytes × Bytes × Bytes) → ℕ
tally a b c [] = 0
tally a b c (x ∷ xs) =
    (if bytes_eq x.0 a && (bytes_eq x.1 b && bytes_eq x.2 c) then 1 else 0) + tally a b c xs

abbrev registry : Metrics Registry
registry = record {
  requests_total_inc = λ a b c reg. (reg.0, (a, b, c) ∷ reg.1);
  request_duration_observe = λ a b reg. reg;
  in_flight_inc = λ reg. (reg.0 +ℤ pos 1, reg.1);
  in_flight_dec = λ reg. (reg.0 -ℤ pos 1, reg.1);
}

registry-MetricsLaws : MetricsLaws registry (λ reg. reg.0) (λ reg a b c. tally a b c reg.1)
registry-MetricsLaws = record {
  gauge_inc = λ reg. refl;
  gauge_dec = λ reg. refl;
  gauge_total = λ a b c reg. refl;
  gauge_observe = λ a b reg. refl;
  total_inc = λ a b c a' b' c' reg. refl;
  total_gauge_inc = λ a b c reg. refl;
  total_gauge_dec = λ a b c reg. refl;
  total_observe = λ a b a' b' c' reg. refl;
}

-- It panics when it has set a header.
abbrev broken : Handler ℕ
broken r n = (
  record {
    writes = header_set (codes "ETag", codes "x") ∷ [];
    ending = panicked (codes "nil map");
  },
  suc n,
)

abbrev put_vote : Request
put_vote = record (vote_request 3 10) {
  path = codes "/requests/" ++ (unary 10 ++ codes "/vote");
  header = λ _. codes "Bearer aaa";
  context_user = none;
  path_id = [];
}

global-cases_example :
    let (t, s') = broken put_vote 4 in
    let (out, ((s'', reg'), log')) = global registry broken put_vote ((4, (pos 2, [])), []) in
    (out.ending ≡ returned)
    × (s'' ≡ s')
    × (reg' ≡ count_request registry put_vote t (registry.in_flight_inc (pos 2, [])))
    × (((t.ending ≡ returned)
          × SameAnswer (answered out) (answered t)
          × (log' ≡ line put_vote t ∷ []))
        ⊎ ((p : Bytes) × (t.ending ≡ panicked p)
            × IsError (answered t) (answered out)
            × (log' ≡ [])))
global-cases_example = global-cases registry broken put_vote 4 (pos 2, []) []

-- Two requests at the same time, of which one panics.
abbrev two_phases : List Phase
two_phases =
    enters
    ∷ enters
    ∷ leaves put_vote (record { writes = write_header 404 ∷ []; ending = returned })
    ∷ leaves put_vote (record { writes = []; ending = panicked (codes "nil map") })
    ∷ []

phases-balanced_example :
    ((phases registry two_phases (pos 0, [])).0 +ℤ pos (left two_phases)
      ≡ pos 0 +ℤ pos (entered two_phases))
    × (tally (codes "PUT") put_vote.path (codes "404") (phases registry two_phases (pos 0, [])).1
        ≡ returned_as (codes "PUT") put_vote.path (codes "404") two_phases + 0)
phases-balanced_example =
    phases-balanced registry (λ reg. reg.0) (λ reg a b c. tally a b c reg.1) registry-MetricsLaws
      two_phases (pos 0, []) (codes "PUT") put_vote.path (codes "404")

-- A token is as long as its user's number.
abbrev signed : Bytes → Result Bytes
signed token = ok (unary (length token))

abbrev page : Request → Response (Body Bytes)
page r = write_json 200 empty

abbrev env : Env
env = record {
  call = call;
  votes = calls;
  passwords = passwords;
  tokens = tokens_of jwt service (pos 1_000_000_000_000);
  digest = record { sha256_hex = λ s. s; marshal = λ p. [] };
  json = record {
    auth = λ _. [];
    request = λ _. [];
    page = λ _. [];
    vote = λ _. [];
    checks = λ _. [];
  };
  postgres_ping = none;
  redis_ping = none;
  metrics_page = page;
}

abbrev parts : Parts Db
parts = postgres_parts pgx env

ok_inj : {a b : Bytes} → ok a ≡ ok b → a ≡ b
ok_inj e = cc

ten-IsSegment : IsSegment (unary 10)
ten-IsSegment = (λ e. absurd (cc), ground arith)

requests-guarded_example :
    RanFor requests_mux requests_mux-MuxLaws signed counters 1000
      (api parts)
      put_vote
      db
      (λ _. 0)
      (serve requests_mux signed counters 1000 (api parts) put_vote (db, λ _. 0))
    ⊎ Refused requests_mux requests_mux-MuxLaws signed counters 1000
        (api parts)
        put_vote
        db
        (λ _. 0)
        (serve requests_mux signed counters 1000 (api parts) put_vote (db, λ _. 0))
requests-guarded_example =
    requests-guarded requests_mux requests_mux-MuxLaws signed counters 1000 (api parts) put_vote db
      (λ _. 0) (codes "/aaaaaaaaaa/vote") refl

serve-upvote_example :
    let out = serve requests_mux signed counters 1000 (api parts) put_vote (db, λ _. 0) in
    let done = Votes.upvote parts.vote_repo (for_user put_vote (unary 10) (unary 3)) db in
    (out.0.status ≡ done.0.status) × (out.1.0 ≡ done.1)
serve-upvote_example =
    serve-upvote requests_mux requests_mux-MuxLaws signed counters 1000 parts put_vote db (λ _. 0)
      (unary 10) (codes "Bearer") (codes "aaa") (unary 3) 1 refl refl ten-IsSegment
      (refl, unfold bytes_eq in refl, ground arith) refl refl (omega arith)

abbrev anonymous : Request
anonymous = record put_vote { header = λ _. codes "" }

anonymous_refused :
    (serve requests_mux signed counters 1000 (api parts) anonymous (db, λ _. 0)).0.status ≡ 401
unfolding serve requests_mux by_parts split bytes_eq protected auth
anonymous_refused = refl

server-serve_example :
    let done = serve requests_mux signed counters 1000 (api parts) anonymous (db, λ _. 0) in
    let (out, ((state, reg'), log')) =
      server requests_mux signed counters 1000
        (api parts)
        registry
        (λ _. [])
        anonymous
        (((db, λ _. 0), (pos 0, [])), []) in
    ((answered out).status ≡ some done.0.status)
    × (state ≡ done.1)
    × (log' ≡ record { method = codes "PUT"; path = put_vote.path; status = done.0.status } ∷ [])
server-serve_example =
    server-serve requests_mux signed counters 1000 (api parts) registry (λ _. []) anonymous
      (db, λ _. 0) (pos 0, []) [] (ap is_informational anonymous_refused)

abbrev vote_arrives : Arrival
vote_arrives = record { env = env; now = 1000; request = put_vote }

signed-SignsUsers : SignsUsers pgx signed
signed-SignsUsers token user e = (length token, sym (ok_inj e))

serve-Leads_example :
    Leads pgx
      (record { db = db; checked = []; fixes = [] })
      (serve requests_mux signed counters 1000 (api parts) put_vote (db, λ _. 0)).1.0
serve-Leads_example =
    serve-Leads pgx requests_mux signed counters signed-SignsUsers vote_arrives
      (record { db = db; checked = []; fixes = [] }) (λ _. 0)

abbrev stores : Stores (Bytes → ℕ) (List (Bytes × ℤ)) (List (Bytes × ℤ))
stores = record { db = db; limits = λ _. 0; counts = []; sets = [] }

abbrev scores : SortedSets ℤ (List (Bytes × ℤ))
scores = record { zadd = λ key x member r. (ok tt, (member, x) ∷ r) }

abbrev day : List (Work ℤ)
day =
    Work.serves vote_arrives
    ∷ Work.reconciles call (λ _. call)
    ∷ Work.recomputes call (λ n created_at. n)
    ∷ Work.serves
        (record { env = env; now = 1001; request = record put_vote { method = codes "DELETE" } })
    ∷ []

work_all-IsSound_example :
    IsSound pgx requests_mux signed counters sent scores
      (work_all pgx requests_mux signed counters sent scores day stores).db
work_all-IsSound_example =
    work_all-IsSound pgx requests_mux signed counters sent scores signed-SignsUsers day stores
      (db-IsConsistent, (refl, tt), db-HasUserKeys)
