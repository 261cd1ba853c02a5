-- ===== src/Server/Start.antt =====
-- The start of cmd/server/main.go, with `connectRedis` of cmd/server/adapters.go, `NewPool` of
-- internal/repository/postgres/pool.go, and internal/platform/server.go.
pub mod Serving
pub mod Environment
use feature_voting_system.Prelude.{◌*◌, ◌++◌, ◌∷◌, Option, none, some, Bytes, codes, ℤ, pos, ℕ}
use feature_voting_system.Errors.{Error, prefixed, Result, ok, err}
use feature_voting_system.Config.{Config, Loaded, panics, returns}
use feature_voting_system.Service.Auth.{AuthService}

infixl 5 ◌>>=◌
abbrev ◌>>=◌ : {A B : Type 0} → Result A → (A → Result B) → Result B
err e >>= f = err e
ok a >>= f = f a

-- `if err != nil { return nil, fmt.Errorf("p: %w", err) }`
abbrev named : {A : Type 0} → Bytes → Result A → Result A
named p (err e) = err (prefixed p e)
named p (ok a) = ok a

abbrev pub pinged : Option Error → Result (Unit {0})
pinged none = ok tt
pinged (some e) = err e

-- pgxpool: `C` is its configuration, and `P` the pool.
pub record PoolLib (C P : Type 0) : Type 0 where
  pub parse_config : Bytes → Result C
  pub set_max_conns : ℕ → C → C
  pub set_min_conns : ℕ → C → C
  pub new_with_config : C → Result P
  pub ping : P → Option Error

unfoldable pub new_pool : {C P : Type 0} → PoolLib C P → Bytes → Result P
new_pool lib dsn = do
  cfg ← named (codes "parse postgres config: ") (lib.parse_config dsn)
  let cfg = lib.set_min_conns 2 (lib.set_max_conns 20 cfg)
  pool ← named (codes "create postgres pool: ") (lib.new_with_config cfg)
  _ ← named (codes "ping postgres: ") (pinged (lib.ping pool))
  ok pool

-- go-redis: `O` is its options, and `K` the client.
pub record RedisLib (O K : Type 0) : Type 0 where
  pub parse_url : Bytes → Result O
  pub new_client : O → K
  pub ping : K → Option Error

-- `connectRedis`: the client, with the error of the ping, which is a warning only.
unfoldable pub connect_redis : {O K : Type 0} → RedisLib O K → Bytes → Result (K × Option Error)
connect_redis lib url = do
  opts ← named (codes "parse redis url: ") (lib.parse_url url)
  let client = lib.new_client opts
  ok (client, lib.ping client)

-- `NewClient` of internal/repository/redis/client.go, which fails where Redis does not answer.
pub redis_client : {O K : Type 0} → RedisLib O K → Bytes → Result K
redis_client lib url = do
  opts ← named (codes "parse redis url: ") (lib.parse_url url)
  let client = lib.new_client opts
  _ ← named (codes "ping redis: ") (pinged (lib.ping client))
  ok client

-- `Server`, whose time limits are in seconds.
pub record Server : Type 0 where
  pub addr : Bytes
  pub read_timeout : ℕ
  pub write_timeout : ℕ
  pub idle_timeout : ℕ

abbrev pub new_server : Bytes → Server
new_server port = record {
  addr = b':' ∷ port;
  read_timeout = 15;
  write_timeout = 30;
  idle_timeout = 60;
}

-- How `http.Server.ListenAndServe` ends: by `http.ErrServerClosed`, or by another error.
pub data Listening : Type 0 where
  server_closed : Listening
  failed : Error → Listening

-- `ListenAndServe` of `Server`
abbrev pub listen_and_serve : Listening → Result (Unit {0})
listen_and_serve server_closed = ok tt
listen_and_serve (failed e) = err (prefixed (codes "listen and serve: ") e)

-- What `main` has made when it starts its jobs and its server.
pub record Booted (P K : Type 0) : Type 0 where
  pub pool : P
  pub rdb : K
  pub auth : AuthService
  pub trending_interval : ℤ
  pub reconcile_interval : ℤ
  pub server : Server

-- How the start ends: with a panic, with the log of an error and exit code 1, or with a server.
pub data Boot (P K : Type 0) : Type 0 where
  crashes : Bytes → Boot P K
  exits : Bytes → Error → Boot P K
  serves : Booted P K → Boot P K

module _ {C P O K : Type 0} (pools : PoolLib C P) (redis : RedisLib O K) where
  abbrev or_exit : {A : Type 0} → Bytes → Result A → (A → Boot P K) → Boot P K
  or_exit message (err e) next = exits message e
  or_exit message (ok a) next = next a

  abbrev pub made : Config → P → K → Booted P K
  made cfg pool rdb = record {
    pool = pool;
    rdb = rdb;
    auth = record {
      access_secret = cfg.jwt_access_secret;
      refresh_secret = cfg.jwt_refresh_secret;
      access_ttl = cfg.jwt_access_ttl;
      refresh_ttl = cfg.jwt_refresh_ttl;
    };
    trending_interval = cfg.trending_recompute_interval;
    reconcile_interval = pos (5 * 60_000_000_000);
    server = new_server cfg.port;
  }

  -- `main` up to its jobs, by what `config.Load` and `NewTracer` give.
  unfoldable pub boot : Loaded Config → Result (Unit {0}) → Boot P K
  unfolding new_pool connect_redis
  boot (panics message) tracer = crashes message
  boot (returns loaded) tracer = or_exit (codes "load config") loaded (λ cfg.
      or_exit (codes "init tracer") tracer (λ _.
        or_exit (codes "connect postgres") (new_pool pools cfg.database_url) (λ pool.
          or_exit (codes "connect redis") (connect_redis redis cfg.redis_url)
            (λ client. serves (made cfg pool client.0)))))
