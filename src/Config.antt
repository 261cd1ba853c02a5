-- ===== src/Config.antt =====
-- internal/config/config.go: the settings, from the environment's variables.
pub mod Durations
pub mod Settings
use feature_voting_system.Prelude.{
  ℕ, ◌-◌, ◌&&◌, ◌++◌, Option, none, some, Bytes, codes, bytes_eq, ℤ, times_int64, ltb,
  if◌then◌else◌, length, take, drop,
}
use feature_voting_system.Errors.{Error, wrap, Result, ok, err}
use feature_voting_system.Text.Decimal.{parse_int}
use feature_voting_system.Text.Duration

-- A duration is an int64 of nanoseconds.
pub record Config : Type 0 where
  pub database_url : Bytes
  pub redis_url : Bytes
  pub jwt_access_secret : Bytes
  pub jwt_refresh_secret : Bytes
  pub jwt_access_ttl : ℤ
  pub jwt_refresh_ttl : ℤ
  pub trending_recompute_interval : ℤ
  pub port : Bytes

-- How `Load` ends: it panics with a message, or it returns.
pub data Loaded (A : Type 0) : Type 0 where
  panics : Bytes → Loaded A
  returns : Result A → Loaded A

infixl 5 ◌>>=◌
abbrev ◌>>=◌ : {A B : Type 0} → Loaded A → (A → Loaded B) → Loaded B
panics m >>= f = panics m
returns (err e) >>= f = returns (err e)
returns (ok a) >>= f = f a

-- The functions of Go that depend on more than a text's bytes: `quoted` is `%q`, which asks Unicode
-- what can be printed, and `part` the floating point of a fraction of a unit.
pub record GoText : Type 0 where
  pub quoted : Bytes → Bytes
  pub part : ℕ → ℕ → ℕ → ℕ

-- The number of days that a text spells, `d` at its end.
abbrev pub days_of : Bytes → Option ℤ
days_of raw =
    let front = length raw - 1 in
    if ltb 1 (length raw) && bytes_eq (drop front raw) (codes "d")
    then parse_int 64 (take front raw)
    else none

abbrev pub hours_per_day : ℕ
hours_per_day = 24

abbrev pub nanoseconds_per_hour : ℕ
nanoseconds_per_hour = 3_600_000_000_000

module _ (go : GoText) where
  abbrev pub missing : Bytes → Bytes
  missing key = codes "required environment variable " ++ (go.quoted key ++ codes " is not set")

  abbrev pub invalid_duration : Bytes → Bytes → Error → Error
  invalid_duration key raw e =
      wrap (codes "invalid duration for " ++ (key ++ (codes "=" ++ (go.quoted raw ++ codes ": "))))
        e (codes "")

  abbrev pub or_days : Bytes → Bytes → Result ℤ → Result ℤ
  or_days key raw (ok d) = ok d
  or_days key raw (err e) = elim (days_of raw) [
    | some days ↦ ok (times_int64 (times_int64 days hours_per_day) nanoseconds_per_hour)
    | none ↦ err (invalid_duration key raw e)
  ]

-- `envOr`; `os.Getenv` gives "" for what is not set.
abbrev pub env_or : (Bytes → Bytes) → Bytes → Bytes → Bytes
env_or getenv key fallback = let v = getenv key in if bytes_eq v (codes "") then fallback else v

module _ (go : GoText) (getenv : Bytes → Bytes) where
  abbrev pub require_env : Bytes → Loaded Bytes
  require_env key =
      let v = getenv key in
      if bytes_eq v (codes "") then panics (missing go key) else returns (ok v)

  unfoldable pub parse_duration : Bytes → Bytes → Result ℤ
  parse_duration key fallback =
      let raw = env_or getenv key fallback in
      or_days go key raw (Duration.parse_duration go.part raw)

  -- `Load`
  unfoldable pub load : Loaded Config
  unfolding parse_duration
  load = do
    database_url ← require_env (codes "DATABASE_URL")
    redis_url ← require_env (codes "REDIS_URL")
    access_secret ← require_env (codes "JWT_ACCESS_SECRET")
    refresh_secret ← require_env (codes "JWT_REFRESH_SECRET")
    access_ttl ← returns (parse_duration (codes "JWT_ACCESS_TTL") (codes "15m"))
    refresh_ttl ← returns (parse_duration (codes "JWT_REFRESH_TTL") (codes "168h"))
    interval ← returns (parse_duration (codes "TRENDING_RECOMPUTE_INTERVAL") (codes "2m"))
    returns (
        ok (record {
          database_url = database_url;
          redis_url = redis_url;
          jwt_access_secret = access_secret;
          jwt_refresh_secret = refresh_secret;
          jwt_access_ttl = access_ttl;
          jwt_refresh_ttl = refresh_ttl;
          trending_recompute_interval = interval;
          port = env_or getenv (codes "PORT") (codes "8080");
        }))
