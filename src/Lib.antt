-- ===== src/Lib.antt =====
-- Feature voting: an HTTP API to register, to submit and list feature requests, and to vote on
-- them, over PostgreSQL and Redis (cmd/server, internal).
--
-- A request passes the middleware and reaches a handler; the handler calls a service, the service
-- calls a repository through an interface, and the repository runs SQL. Two background jobs work
-- on the same tables. The model follows these layers, with one function for each Go function, of
-- the same name in lower case with underscores:
--
--   Errors             internal/service/errors.go, fmt.Errorf, errors.Is and ==; fallible calls are
--                      functions from a state to a result and a state (Action)
--   Database           the rows of migrations/0001_init.up.sql and of
--                      internal/repository/postgres/models.go (Tables), what PostgreSQL and pgx do
--                      around a statement (Driver), and the tables' invariant (Consistency)
--   Postgres           internal/repository/postgres: Votes is votes.go, Transaction is its Begin,
--                      Exec, Commit and Rollback, Users is user_repo.go, Users.Repository is
--                      users.go, Requests is requests.go, Ranking is ranking.go
--   Cursor             internal/handler/cursor.go, and the same code in request.go, ranking.go and
--                      requests.go
--   Service            internal/service: Vote is vote.go, User and Substring are user.go, Request
--                      is request.go with its page in Request.Page, Ranking is ranking.go with its
--                      page in Page, Auth is auth.go
--   Http, Handler      internal/handler: Votes is votes.go, Auth is auth.go, Requests is
--                      requests.go
--   Http.Writer        http.ResponseWriter: the calls of a handler, and what is sent of them
--   Middleware         internal/middleware: auth.go, ratelimit.go, security.go, observability.go
--   Jobs               internal/ranking, and cmd/server/adapters.go
--   Redis              internal/repository/redis: Votes is votes.go
--   Config             internal/config/config.go
--   Server             cmd/server/main.go: Router is the routes, the groups and the handlers behind
--                      them, Start is the way to a running server and Stop the way from there to the
--                      return of `main`, with internal/platform/server.go,
--                      internal/repository/postgres/pool.go and internal/repository/redis/client.go,
--                      System is the API and both jobs together, Sessions the tokens at the routes;
--                      the probes of
--                      internal/platform/health.go
--   Text               strings.TrimSpace, strings.Split, strings.SplitN, encoding/base64, strconv,
--                      time.ParseDuration and the %d of fmt, on bytes
--   Concurrent         calls that are interleaved, as a step relation, and what holds in every world
--                      that is reached
--   Tests              runs at concrete inputs
--
-- A Go interface (VoteRepo, UserRepo, RequestRepo, RankingRepo, ReconcileStore) is a record of
-- operations over a state that the clients take as a parameter, and postgres_votes and its like
-- fill it with the repository, as cmd/server/main.go does. Laws that a client relies on are
-- records too (VoteLaws, PasswordLaws), and are proved of what fills them.
--
-- Strings are lists of bytes. Numbers are unbounded, with the bounds of a column or of an int
-- written where the code meets them: the counter is a 32-bit column, `UnixNano` wraps around at 64
-- bits, the scanners refuse what does not fit. UUIDs and times are numbers; their text forms are
-- parameters.
--
-- Each SQL statement is a function on the tables, translated where it stands in the source. What
-- the environment does in one call (failures of the driver, the clock, generated ids, the outcome
-- of a commit, which may be carried out although its answer is lost) is a parameter, Call. Outside
-- transactions a failing statement has no effect; a lost answer to a single INSERT or UPDATE is
-- not told apart from one that was never run. A statement or a transaction is one step: the row
-- locks and the unique keys of PostgreSQL are taken to make concurrent ones serial. Between the
-- calls of a repository anything may happen (Concurrent).
--
-- Parameters, with their laws where a theorem needs some: pgx and the text of UUIDs and times
-- (Database.Driver), argon2, the random source and the JWT library (Service.Auth), SHA-256 and the
-- JSON encoder (Handler.Requests), the commands of Redis (Middleware.RateLimit, Jobs, Redis.Votes),
-- the trending score (Jobs.Trending), the router's matching (Server.Router.Guarded) and the metrics
-- (Middleware.Observability.Balance). Random and timed inputs are arguments.
--
-- Loops are recursion on the list or on the text. Fuel bounds the loop of a client that follows
-- cursors, for which one more than the number of requests is enough, and loops over a text, for
-- which its length is enough.
--
-- A handler is a function from a request and a state to a response and a state. Where the middleware
-- looks at what a handler does on its way, or at a panic, a response is the list of the calls on the
-- ResponseWriter that make it (Http.Writer).
--
-- Not modelled: the requests in flight that Shutdown of net/http waits for; the loggers and the
-- tracer; JSON syntax. chi's matching of a path, RequestID and OTel, promhttp, Prometheus, pgxpool
-- and go-redis are parameters, and so is what Go computes in floating point (the trending score, a
-- fraction of a unit in a duration) and the quoting of %q. Goroutines are interleaved call by call
-- (Concurrent), or run one piece of work after the other (Server.System).
pub mod Prelude
pub mod Errors
pub mod Text
pub mod Config
pub mod Cursor
pub mod Database
pub mod Postgres
pub mod Service
pub mod Http
pub mod Handler
pub mod Middleware
pub mod Jobs
pub mod Server
pub mod Redis
pub mod Concurrent
mod Tests
