-- ===== src/Server.antt =====
-- The routes that cmd/server/main.go protects, the probes of internal/platform/health.go.
pub mod Protected
pub mod Global
pub mod Router
pub mod Sessions
pub mod Start
pub mod Stop
pub mod System
pub mod Ready
use feature_voting_system.Prelude.{ℕ, ◌++◌, List, Option, none, some, Bytes, codes}
use feature_voting_system.Errors.{Error, error_text, Result}
use feature_voting_system.Http.{Response, Body, HttpHandler, value, write_json}
use feature_voting_system.Middleware.Auth.{auth}
use feature_voting_system.Http.Writer.{Handler}
use feature_voting_system.Middleware.Observability.{
  LogLine, Metrics, recover, request_logging, metrics,
}
use feature_voting_system.Middleware.Security.{security_headers}
use feature_voting_system.Middleware.RateLimit.{RateStore, rate_limit}

-- `middleware.RateLimit(rdb, 100, time.Minute)`
abbrev pub requests_per_minute : ℕ
requests_per_minute = 100

-- A handler of the protected group, inside `Auth` and `RateLimit`.
unfoldable pub protected :
    {S R B : Type 0}
    → (Bytes → Result Bytes)
    → RateStore R
    → ℕ
    → HttpHandler S B
    → HttpHandler (S × R) B
unfolding auth rate_limit
protected verify store now next = auth verify (rate_limit store requests_per_minute 60 now next)

-- The middleware of every route, from `Recover` to `Metrics`, around `next`: the routes inside
-- `OTel`.
unfoldable pub global : {S M : Type 0} → Metrics M → Handler S → Handler ((S × M) × List LogLine)
unfolding recover security_headers request_logging metrics
global m next = recover (security_headers (request_logging (metrics m next)))

-- `checks`
pub record Checks : Type 0 where
  pub postgres : Bytes
  pub redis : Bytes

abbrev pub describe : Option Error → Bytes
describe none = codes "ok"
describe (some e) = codes "unhealthy: " ++ error_text e

abbrev pub ready_status : Option Error → Option Error → ℕ
ready_status none none = 200
ready_status (some e) redis = 503
ready_status none (some e) = 503

-- `Readyz`, by the errors of the two pings.
abbrev pub readyz : Option Error → Option Error → Response (Body Checks)
readyz postgres redis =
    write_json (ready_status postgres redis)
      (value (record { postgres = describe postgres; redis = describe redis }))

-- `Healthz` and `Health`
abbrev pub healthz : Response (Body Bytes)
healthz = write_json 200 (value (codes "ok"))
