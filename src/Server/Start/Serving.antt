-- ===== src/Server/Start/Serving.antt =====
-- When the server starts, by what `main` makes on its way.
use feature_voting_system.Prelude.{
  ◌≡◌, ◌↔◌, ◌⊎◌, codes, refl, sym, ap, ◌∙◌, inl, inr, Option, none, some, Bytes, ℤ, pos, arith,
  Option-cases, List, All, ltb_ℤ, false,
}
use feature_voting_system.Errors.{Error, prefixed, Result, ok, err, Result-cases}
use feature_voting_system.Config.{Config, Loaded, panics, returns, GoText, parse_duration, load}
use feature_voting_system.Config.Settings.{required, IsGiven, loaded_config, load-loaded}
use feature_voting_system.Jobs.Trending.{Event, run, panicked, bad_interval}
use feature_voting_system.Jobs.Trending.Rounds.{run-not_positive}
use feature_voting_system.Server.Start.{
  PoolLib, new_pool, RedisLib, connect_redis, redis_client, Booted, serves, made, boot,
}

module _ {C P O K : Type 0} (pools : PoolLib C P) (redis : RedisLib O K) where
  -- The configuration, the tracer, a pool that was made and answers, and the options of Redis.
  pub record IsReady (loaded : Loaded Config) (tracer : Result (Unit {0})) (b : Booted P K)
      : Type 0 where
    pub cfg : Config
    pub opts : O
    pub loads : loaded ≡ returns (ok cfg)
    pub traces : tracer ≡ ok tt
    pub connects : new_pool pools cfg.database_url ≡ ok b.pool
    pub parses : redis.parse_url cfg.redis_url ≡ ok opts
    pub same : b ≡ made pools redis cfg b.pool (redis.new_client opts)

  boot-IsReady :
      (loaded : Loaded Config) (tracer : Result (Unit {0})) (b : Booted P K)
      → boot pools redis loaded tracer ≡ serves b
      → IsReady loaded tracer b
  unfolding boot connect_redis
  boot-IsReady (panics m) tracer b h = cc
  boot-IsReady (returns (err e)) tracer b h = cc
  boot-IsReady (returns (ok cfg)) (err e) b h = cc
  boot-IsReady (returns (ok cfg)) (ok u) b h =
      elim (Result-cases (new_pool pools cfg.database_url)) [
        | inr (e, unconnected) ↦ ground arith
        | inl (pool, connected) ↦ elim (Result-cases (redis.parse_url cfg.redis_url)) [
          | inr (e, unparsed) ↦ ground arith
          | inl (opts, parsed) ↦
              let same : b ≡ made pools redis cfg pool (redis.new_client opts) = ground arith in
              record {
                cfg = cfg;
                opts = opts;
                loads = refl;
                traces = refl;
                connects = connected ∙ ap (λ (x : Booted P K). ok x.pool) (sym same);
                parses = parsed;
                same =
                    same
                    ∙ ap (λ q. made pools redis cfg q (redis.new_client opts))
                        (sym (ap (λ (x : Booted P K). x.pool) same));
              }
        ]
      ]

  pub boot-IsReady_iff :
      (loaded : Loaded Config) (tracer : Result (Unit {0})) (b : Booted P K)
      → (boot pools redis loaded tracer ≡ serves b) ↔ IsReady loaded tracer b
  unfolding boot connect_redis
  boot-IsReady_iff loaded tracer b = (boot-IsReady loaded tracer b, ready)
    where
      ready : IsReady loaded tracer b → boot pools redis loaded tracer ≡ serves b
      ready h =
          rw (h.loads, h.traces)
            (unfold boot in
              unfold connect_redis in rw (h.connects, h.parses) (ap serves (sym h.same)))

  -- Of a client that `connectRedis` gives, `NewClient` of the redis package gives the same where
  -- Redis answers, and otherwise the error that is a warning here.
  pub connect_redis-redis_client :
      (url : Bytes) (k : K) (warning : Option Error)
      → connect_redis redis url ≡ ok (k, warning)
      → ((warning ≡ none) × (redis_client redis url ≡ ok k))
        ⊎ ((e : Error) × (warning ≡ some e)
            × (redis_client redis url ≡ err (prefixed (codes "ping redis: ") e)))
  unfolding connect_redis redis_client
  connect_redis-redis_client url k warning h = elim (Result-cases (redis.parse_url url)) [
    | inr (e, unparsed) ↦ ground arith
    | inl (opts, parsed) ↦ elim (Option-cases (redis.ping (redis.new_client opts))) [
      | inl answers ↦ inl (ground arith)
      | inr (e, silent) ↦ inr (e, ground arith, ground arith)
    ]
  ]

  -- Where the required variables are set, the three durations can be read, and PostgreSQL and the
  -- URL of Redis are in order, the server starts; but if the trending interval is zero or negative,
  -- the trending job panics as soon as it runs.
  pub boot-panicked :
      {Score S : Type 0} (go : GoText) (getenv : Bytes → Bytes) (access refresh interval : ℤ)
      (pool : P) (opts : O) (events : List (Event Score S)) (s : S)
      → All (IsGiven go getenv) required
      → parse_duration go getenv (codes "JWT_ACCESS_TTL") (codes "15m") ≡ ok access
      → parse_duration go getenv (codes "JWT_REFRESH_TTL") (codes "168h") ≡ ok refresh
      → parse_duration go getenv (codes "TRENDING_RECOMPUTE_INTERVAL") (codes "2m") ≡ ok interval
      → new_pool pools (getenv (codes "DATABASE_URL")) ≡ ok pool
      → redis.parse_url (getenv (codes "REDIS_URL")) ≡ ok opts
      → ltb_ℤ (pos 0) interval ≡ false
      → (b : Booted P K) × (boot pools redis (load go getenv) (ok tt) ≡ serves b)
        × (run b.trending_interval events s ≡ panicked bad_interval s)
  boot-panicked go getenv access refresh interval pool opts events s set e₁ e₂ e₃ connected parsed
        h =
      let loaded = load-loaded go getenv access refresh interval set e₁ e₂ e₃ in
      let cfg = loaded_config getenv access refresh interval in
      (
        made pools redis cfg pool (redis.new_client opts),
        (boot-IsReady_iff (load go getenv) (ok tt) _).1 (record {
          cfg = cfg;
          opts = opts;
          loads = loaded;
          traces = refl;
          connects = connected;
          parses = parsed;
          same = refl;
        }),
        run-not_positive interval events s h,
      )
