-- ===== src/Server/Router.antt =====
-- The routes of cmd/server/main.go, and the handlers behind them.
pub mod Guarded
pub mod Reached
pub mod Effects
pub mod Whole
pub mod Wiring
use Prim.Native.String.{String}
use feature_voting_system.Prelude.{
  ℕ, Bool, true, false, List, [], ◌∷◌, ◌++◌, Option, none, some, Bytes, codes,
}
use feature_voting_system.Errors.{Error, Result}
use feature_voting_system.Http.{Request, Response, Body, HttpHandler, value, error, plain, empty}
use feature_voting_system.Http.Writer.{Handler, respond}
use feature_voting_system.Middleware.RateLimit.{RateStore}
use feature_voting_system.Middleware.Observability.{LogLine, Metrics}
use feature_voting_system.Server.{protected, global}

-- The handlers that routes are given to.
pub data Endpoint : Type 0 where
  healthz health readyz metrics register login refresh submit list get_by_id upvote remove_vote :
      Endpoint

-- `with_id before after` is before{id}after.
pub data Pattern : Type 0 where
  static : Bytes → Pattern
  with_id : Bytes → Bytes → Pattern

-- No method stands for `Handle`, which takes all that the router knows.
pub record Route : Type 0 where
  pub method : Option Bytes
  pub pattern : Pattern
  pub endpoint : Endpoint

abbrev on : String → Pattern → Endpoint → Route
on method pattern endpoint = record {
  method = some (codes method);
  pattern = pattern;
  endpoint = endpoint;
}

abbrev pub open_routes : List Route
open_routes =
    on "GET" (static (codes "/healthz")) Endpoint.healthz
    ∷ on "GET" (static (codes "/health")) Endpoint.health
    ∷ on "GET" (static (codes "/readyz")) Endpoint.readyz
    ∷ record { method = none; pattern = static (codes "/metrics"); endpoint = Endpoint.metrics }
    ∷ on "POST" (static (codes "/auth/register")) Endpoint.register
    ∷ on "POST" (static (codes "/auth/login")) Endpoint.login
    ∷ on "POST" (static (codes "/auth/refresh")) Endpoint.refresh
    ∷ []

-- The group behind `Auth` and `RateLimit`.
abbrev pub protected_routes : List Route
protected_routes =
    on "POST" (static (codes "/requests")) Endpoint.submit
    ∷ on "GET" (static (codes "/requests")) Endpoint.list
    ∷ on "GET" (with_id (codes "/requests/") (codes "")) Endpoint.get_by_id
    ∷ on "PUT" (with_id (codes "/requests/") (codes "/vote")) Endpoint.upvote
    ∷ on "DELETE" (with_id (codes "/requests/") (codes "/vote")) Endpoint.remove_vote
    ∷ []

abbrev pub is_protected : Endpoint → Bool
is_protected Endpoint.submit = true
is_protected Endpoint.list = true
is_protected Endpoint.get_by_id = true
is_protected Endpoint.upvote = true
is_protected Endpoint.remove_vote = true
is_protected _ = false

-- The path that a pattern stands for.
abbrev pub path_of : Pattern → Bytes → Bytes
path_of (static path) id = path
path_of (with_id before after) id = before ++ (id ++ after)

-- What chi makes of a method and a path: a route's endpoint, with what stands for {id}, or an
-- answer of its own.
pub data Found : Type 0 where
  found : Endpoint → Bytes → Found
  refused : Response (Body Bytes) → Found

abbrev pub Mux : Type 0
Mux = Bytes → Bytes → Found

-- A value is given to a JSON encoder.
abbrev pub encoded : {B : Type 0} → (B → Bytes) → Body B → Body Bytes
encoded f (value v) = value (f v)
encoded f (error code message) = error code message
encoded f (plain text) = plain text
encoded f empty = empty

abbrev pub with_json : {S B : Type 0} → (B → Bytes) → HttpHandler S B → HttpHandler S Bytes
with_json f next r s =
    let (out, s') = next r s in
    (record { status = out.status; headers = out.headers; body = encoded f out.body }, s')

abbrev pub Api : Type 0 → Type 0
Api S = Endpoint → HttpHandler S Bytes

module _ {S R : Type 0} (mux : Mux) (verify : Bytes → Result Bytes) (store : RateStore R) (now : ℕ)
    (api : Api S) where
  abbrev pub unguarded : HttpHandler S Bytes → HttpHandler (S × R) Bytes
  unguarded next r (s, w) = let (out, s') = next r s in (out, (s', w))

  abbrev pub handle : Endpoint → HttpHandler (S × R) Bytes
  handle e = elim (is_protected e) [
    | true ↦ protected verify store now (api e)
    | false ↦ unguarded (api e)
  ]

  -- The router.
  unfoldable pub serve : HttpHandler (S × R) Bytes
  serve r s = elim (mux r.method r.path) [
    | found e id ↦ handle e (record r { path_id = id }) s
    | refused out ↦ (out, s)
  ]

  -- The server's handler: the router, inside the middleware of all routes. `write` is what the
  -- encoder and `http.Error` write.
  unfoldable pub server :
      {M : Type 0} → Metrics M → (Body Bytes → Bytes) → Handler (((S × R) × M) × List LogLine)
  unfolding serve
  server m write = global m (respond write serve)
