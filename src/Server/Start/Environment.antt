-- ===== src/Server/Start/Environment.antt =====
-- When the server starts, and with what, by the environment's variables and the libraries.
use feature_voting_system.Prelude.{
  ◌≡◌, ◌↔◌, ◌++◌, sym, ap, ◌∙◌, inl, inr, none, Bytes, codes, ℤ, pos, All, arith, Option-cases,
}
use feature_voting_system.Errors.{Result, ok, Result-cases}
use feature_voting_system.Config.{Config, returns, GoText, env_or, parse_duration, load}
use feature_voting_system.Config.Settings.{
  required, IsGiven, loaded_config, load-loaded, load-cases,
}
use feature_voting_system.Server.Start.{PoolLib, new_pool, RedisLib, Booted, serves, made, boot}
use feature_voting_system.Server.Start.Serving.{boot-IsReady_iff}

-- A pool of 2 to 20 connections to a database that answers.
abbrev pub IsConnected : {C P : Type 0} → PoolLib C P → Bytes → P → Type 0
IsConnected {C} lib dsn pool =
    (cfg : C) × (lib.parse_config dsn ≡ ok cfg)
    × (lib.new_with_config (lib.set_min_conns 2 (lib.set_max_conns 20 cfg)) ≡ ok pool)
    × (lib.ping pool ≡ none)

new_pool_iff :
    {C P : Type 0} (lib : PoolLib C P) (dsn : Bytes) (pool : P)
    → (new_pool lib dsn ≡ ok pool) ↔ IsConnected lib dsn pool
unfolding new_pool
new_pool_iff lib dsn pool = (made_one, made_back)
  where
    made_one : new_pool lib dsn ≡ ok pool → IsConnected lib dsn pool
    made_one h =
        unfold new_pool in
        elim (Result-cases (lib.parse_config dsn)) [
          | inr (e, unparsed) ↦ absurd (unfold new_pool in ground arith)
          | inl (cfg, parsed) ↦
              elim (Result-cases
                (lib.new_with_config (lib.set_min_conns 2 (lib.set_max_conns 20 cfg)))) [
                  | inr (e, failed) ↦ absurd (unfold new_pool in ground arith)
                  | inl (p, created) ↦ elim (Option-cases (lib.ping p)) [
                    | inr (e, silent) ↦ absurd (unfold new_pool in ground arith)
                    | inl answers ↦
                        let same : p ≡ pool = unfold new_pool in ground arith in
                        (cfg, parsed, created ∙ ap ok same, ap lib.ping (sym same) ∙ answers)
                  ]
                ]
        ]

    made_back : IsConnected lib dsn pool → new_pool lib dsn ≡ ok pool
    made_back (cfg, parsed, created, answers) = unfold new_pool in ground arith

-- Whoever returns a configuration has loaded the settings.
module _ (go : GoText) (getenv : Bytes → Bytes) where
  abbrev HasSettings : Config → Type 0
  HasSettings cfg =
      (access refresh interval : ℤ) × All (IsGiven go getenv) required
      × (parse_duration go getenv (codes "JWT_ACCESS_TTL") (codes "15m") ≡ ok access)
      × (parse_duration go getenv (codes "JWT_REFRESH_TTL") (codes "168h") ≡ ok refresh)
      × (parse_duration go getenv (codes "TRENDING_RECOMPUTE_INTERVAL") (codes "2m") ≡ ok interval)
      × (cfg ≡ loaded_config getenv access refresh interval)

  returned_inj : {a b : Config} → returns (ok a) ≡ returns (ok b) → a ≡ b
  returned_inj h = cc

  load-HasSettings : (cfg : Config) → load go getenv ≡ returns (ok cfg) → HasSettings cfg
  load-HasSettings cfg loads = elim (load-cases go getenv) [
    | inl (key, listed, empty, panic) ↦ absurd (cc)
    | inr (given, inl (e, refused, why)) ↦ absurd (cc)
    | inr (given, inr (found, loads', all)) ↦
        let (access, _) = all.access_ttl in
        let (refresh, _) = all.refresh_ttl in
        let (interval, _) = all.interval in
        (
          found.jwt_access_ttl,
          found.jwt_refresh_ttl,
          found.trending_recompute_interval,
          given,
          access,
          refresh,
          interval,
          returned_inj (sym loads ∙ load-loaded go getenv _ _ _ given access refresh interval),
        )
  ]

module _ {C P O K : Type 0} (pools : PoolLib C P) (redis : RedisLib O K) (go : GoText)
    (getenv : Bytes → Bytes) where
  -- Everything that the environment has to provide, and everything that the server is given of it.
  pub record IsStarted (tracer : Result (Unit {0})) (b : Booted P K) : Type 0 where
    pub given : All (IsGiven go getenv) required
    pub traces : tracer ≡ ok tt
    pub pool : IsConnected pools (getenv (codes "DATABASE_URL")) b.pool
    pub opts : O
    pub parses : redis.parse_url (getenv (codes "REDIS_URL")) ≡ ok opts
    pub client : b.rdb ≡ redis.new_client opts
    pub access_secret : b.auth.access_secret ≡ getenv (codes "JWT_ACCESS_SECRET")
    pub refresh_secret : b.auth.refresh_secret ≡ getenv (codes "JWT_REFRESH_SECRET")
    pub access_ttl :
        parse_duration go getenv (codes "JWT_ACCESS_TTL") (codes "15m") ≡ ok b.auth.access_ttl
    pub refresh_ttl :
        parse_duration go getenv (codes "JWT_REFRESH_TTL") (codes "168h") ≡ ok b.auth.refresh_ttl
    pub trending :
        parse_duration go getenv (codes "TRENDING_RECOMPUTE_INTERVAL") (codes "2m")
        ≡ ok b.trending_interval
    pub reconcile : b.reconcile_interval ≡ pos 300_000_000_000
    pub address : b.server.addr ≡ codes ":" ++ env_or getenv (codes "PORT") (codes "8080")
    pub read_timeout : b.server.read_timeout ≡ 15
    pub write_timeout : b.server.write_timeout ≡ 30
    pub idle_timeout : b.server.idle_timeout ≡ 60

  booted :
      (tracer : Result (Unit {0})) (b : Booted P K)
      → boot pools redis (load go getenv) tracer ≡ serves b
      → IsStarted tracer b
  booted tracer b h =
      let ready = (boot-IsReady_iff pools redis (load go getenv) tracer b).0 h in
      let (access, refresh, interval, given, e₁, e₂, e₃, settings) =
        load-HasSettings go getenv ready.cfg ready.loads in
      let same : b
          ≡ made pools redis (loaded_config getenv access refresh interval) b.pool
              (redis.new_client ready.opts) =
        ready.same ∙ ap (λ c. made pools redis c b.pool (redis.new_client ready.opts)) settings in
      record {
        given = given;
        traces = ready.traces;
        pool =
            (new_pool_iff pools (getenv (codes "DATABASE_URL")) b.pool).0
              (ap (λ (c : Config). new_pool pools c.database_url) (sym settings) ∙ ready.connects);
        opts = ready.opts;
        parses = ap (λ (c : Config). redis.parse_url c.redis_url) (sym settings) ∙ ready.parses;
        client = ap (λ (x : Booted P K). x.rdb) same;
        access_secret = ap (λ (x : Booted P K). x.auth.access_secret) same;
        refresh_secret = ap (λ (x : Booted P K). x.auth.refresh_secret) same;
        access_ttl = e₁ ∙ ap (λ (x : Booted P K). ok x.auth.access_ttl) (sym same);
        refresh_ttl = e₂ ∙ ap (λ (x : Booted P K). ok x.auth.refresh_ttl) (sym same);
        trending = e₃ ∙ ap (λ (x : Booted P K). ok x.trending_interval) (sym same);
        reconcile = ap (λ (x : Booted P K). x.reconcile_interval) same;
        address = ap (λ (x : Booted P K). x.server.addr) same;
        read_timeout = ap (λ (x : Booted P K). x.server.read_timeout) same;
        write_timeout = ap (λ (x : Booted P K). x.server.write_timeout) same;
        idle_timeout = ap (λ (x : Booted P K). x.server.idle_timeout) same;
      }

  started :
      (tracer : Result (Unit {0})) (b : Booted P K)
      → IsStarted tracer b
      → boot pools redis (load go getenv) tracer ≡ serves b
  started tracer b h =
      let cfg = loaded_config getenv b.auth.access_ttl b.auth.refresh_ttl b.trending_interval in
      (boot-IsReady_iff pools redis (load go getenv) tracer b).1 (record {
        cfg = cfg;
        opts = h.opts;
        loads = load-loaded go getenv _ _ _ h.given h.access_ttl h.refresh_ttl h.trending;
        traces = h.traces;
        connects = (new_pool_iff pools (getenv (codes "DATABASE_URL")) b.pool).1 h.pool;
        parses = h.parses;
        same = λ i. record {
          pool = b.pool;
          rdb = h.client i;
          auth = record {
            access_secret = h.access_secret i;
            refresh_secret = h.refresh_secret i;
            access_ttl = b.auth.access_ttl;
            refresh_ttl = b.auth.refresh_ttl;
          };
          trending_interval = b.trending_interval;
          reconcile_interval = h.reconcile i;
          server = record {
            addr = h.address i;
            read_timeout = h.read_timeout i;
            write_timeout = h.write_timeout i;
            idle_timeout = h.idle_timeout i;
          };
        };
      })

  -- The server starts exactly when the four required variables are set, the three durations can be
  -- read, the tracer is made, a pool of 2 to 20 connections is made of DATABASE_URL and PostgreSQL
  -- answers, and REDIS_URL can be read, whether Redis answers or not. Its secrets, lifetimes and
  -- trending interval are those that the variables name, the reconcile job runs every 5 minutes,
  -- its address is the port that PORT names, or 8080, and its time limits are 15, 30 and 60
  -- seconds.
  pub boot-serves_iff :
      (tracer : Result (Unit {0})) (b : Booted P K)
      → (boot pools redis (load go getenv) tracer ≡ serves b) ↔ IsStarted tracer b
  boot-serves_iff tracer b = (booted tracer b, started tracer b)
