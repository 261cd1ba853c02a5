-- ===== src/Config/Settings.antt =====
-- What `Load` of internal/config/config.go gives.
use mathlib.Core.List.{Memᴰ}
use feature_voting_system.Prelude.{
  ◌*◌, ◌≡◌, ◌⊎◌, refl, inl, inr, false, List, [], ◌∷◌, Bytes, codes, ℤ, pos, IsInt64, All, arith,
  Bool-cases, bytes_eq, bytes_eq_iff,
}
use feature_voting_system.Errors.{Error, Result, ok, err, Result-cases}
use feature_voting_system.Text.Duration
use feature_voting_system.Config.{
  Config, Loaded, panics, returns, GoText, missing, env_or, parse_duration, load,
}
use feature_voting_system.Config.Durations.{parse_duration-IsInt64}

abbrev pub required : List Bytes
required =
    codes "DATABASE_URL"
    ∷ codes "REDIS_URL"
    ∷ codes "JWT_ACCESS_SECRET"
    ∷ codes "JWT_REFRESH_SECRET"
    ∷ []

-- The settings that are durations, with their defaults.
abbrev pub durations : List (Bytes × Bytes)
durations =
    (codes "JWT_ACCESS_TTL", codes "15m")
    ∷ (codes "JWT_REFRESH_TTL", codes "168h")
    ∷ (codes "TRENDING_RECOMPUTE_INTERVAL", codes "2m")
    ∷ []

-- The configuration of an environment, with these durations.
abbrev pub loaded_config : (Bytes → Bytes) → ℤ → ℤ → ℤ → Config
loaded_config getenv access refresh interval = record {
  database_url = getenv (codes "DATABASE_URL");
  redis_url = getenv (codes "REDIS_URL");
  jwt_access_secret = getenv (codes "JWT_ACCESS_SECRET");
  jwt_refresh_secret = getenv (codes "JWT_REFRESH_SECRET");
  jwt_access_ttl = access;
  jwt_refresh_ttl = refresh;
  trending_recompute_interval = interval;
  port = env_or getenv (codes "PORT") (codes "8080");
}

module _ (go : GoText) (getenv : Bytes → Bytes) where
  abbrev pub IsGiven : Bytes → Type 0
  IsGiven key = bytes_eq (getenv key) (codes "") ≡ false

  -- A duration that is the setting's, or the default's, and that is an int64.
  abbrev pub IsDuration : Bytes → Bytes → ℤ → Type 0
  IsDuration key fallback d = (parse_duration go getenv key fallback ≡ ok d) × IsInt64 d

  pub record IsLoaded (cfg : Config) : Type 0 where
    pub database_url : cfg.database_url ≡ getenv (codes "DATABASE_URL")
    pub redis_url : cfg.redis_url ≡ getenv (codes "REDIS_URL")
    pub access_secret : cfg.jwt_access_secret ≡ getenv (codes "JWT_ACCESS_SECRET")
    pub refresh_secret : cfg.jwt_refresh_secret ≡ getenv (codes "JWT_REFRESH_SECRET")
    pub access_ttl : IsDuration (codes "JWT_ACCESS_TTL") (codes "15m") cfg.jwt_access_ttl
    pub refresh_ttl : IsDuration (codes "JWT_REFRESH_TTL") (codes "168h") cfg.jwt_refresh_ttl
    pub interval :
        IsDuration
          (codes "TRENDING_RECOMPUTE_INTERVAL")
          (codes "2m")
          cfg.trending_recompute_interval
    pub port : bytes_eq cfg.port (codes "") ≡ false

  abbrev pub IsRefused : Loaded Config → Type 0
  IsRefused out =
      (e : Error) × (out ≡ returns (err e))
      × ((setting : Bytes × Bytes) × Memᴰ setting durations
          × (parse_duration go getenv setting.0 setting.1 ≡ err e))

  abbrev pub IsAccepted : Loaded Config → Type 0
  IsAccepted out = (cfg : Config) × (out ≡ returns (ok cfg)) × IsLoaded cfg

  port-IsGiven : bytes_eq (env_or getenv (codes "PORT") (codes "8080")) (codes "") ≡ false
  port-IsGiven = elim (Bool-cases (bytes_eq (getenv (codes "PORT")) (codes ""))) [
    | inl empty ↦ rw empty (unfold bytes_eq in refl)
    | inr given ↦ rw given given
  ]

  pub load-loaded :
      (access refresh interval : ℤ)
      → All IsGiven required
      → parse_duration go getenv (codes "JWT_ACCESS_TTL") (codes "15m") ≡ ok access
      → parse_duration go getenv (codes "JWT_REFRESH_TTL") (codes "168h") ≡ ok refresh
      → parse_duration go getenv (codes "TRENDING_RECOMPUTE_INTERVAL") (codes "2m") ≡ ok interval
      → load go getenv ≡ returns (ok (loaded_config getenv access refresh interval))
  unfolding load
  load-loaded access refresh interval (h₁, (h₂, (h₃, (h₄, _)))) e₁ e₂ e₃ =
      rw (h₁, h₂, h₃, h₄, e₁, e₂, e₃) refl

  load_durations : All IsGiven required → IsRefused (load go getenv) ⊎ IsAccepted (load go getenv)
  unfolding load
  load_durations all =
      let (database, (redis, (access, (refresh, _)))) = all in
      elim (Result-cases first) [
        | inr (e, failed) ↦ inl (e, ground arith, (_, Memᴰ.head refl, failed))
        | inl (access_ttl, e₁) ↦ elim (Result-cases second) [
          | inr (e, failed) ↦ inl (e, ground arith, (_, Memᴰ.tail (Memᴰ.head refl), failed))
          | inl (refresh_ttl, e₂) ↦ elim (Result-cases third) [
            | inr (e, failed) ↦
                inl (e, ground arith, (_, Memᴰ.tail (Memᴰ.tail (Memᴰ.head refl)), failed))
            | inl (interval, e₃) ↦ inr (
              loaded_config getenv access_ttl refresh_ttl interval,
              load-loaded access_ttl refresh_ttl interval all e₁ e₂ e₃,
              record {
                database_url = refl;
                redis_url = refl;
                access_secret = refl;
                refresh_secret = refl;
                access_ttl = (e₁, parse_duration-IsInt64 go getenv _ _ access_ttl e₁);
                refresh_ttl = (e₂, parse_duration-IsInt64 go getenv _ _ refresh_ttl e₂);
                interval = (e₃, parse_duration-IsInt64 go getenv _ _ interval e₃);
                port = port-IsGiven;
              },
            )
          ]
        ]
      ]
    where
      first : Result ℤ
      first = parse_duration go getenv (codes "JWT_ACCESS_TTL") (codes "15m")

      second : Result ℤ
      second = parse_duration go getenv (codes "JWT_REFRESH_TTL") (codes "168h")

      third : Result ℤ
      third = parse_duration go getenv (codes "TRENDING_RECOMPUTE_INTERVAL") (codes "2m")

  -- `Load` panics over a required variable that is empty; or all are set, and it returns the error
  -- of a duration that cannot be read, or else a configuration that holds the required variables,
  -- durations that are int64, and a port that is not empty.
  pub load-cases :
      ((key : Bytes) × Memᴰ key required
        × (getenv key ≡ [])
        × (load go getenv ≡ panics (missing go key)))
      ⊎ (All IsGiven required × (IsRefused (load go getenv) ⊎ IsAccepted (load go getenv)))
  unfolding load
  load-cases = elim (Bool-cases (bytes_eq (getenv (codes "DATABASE_URL")) (codes ""))) [
    | inl empty ↦ inl (_, Memᴰ.head refl, (bytes_eq_iff _ _).0 empty, ground arith)
    | inr database ↦ elim (Bool-cases (bytes_eq (getenv (codes "REDIS_URL")) (codes ""))) [
      | inl empty ↦ inl (_, Memᴰ.tail (Memᴰ.head refl), (bytes_eq_iff _ _).0 empty, ground arith)
      | inr redis ↦ elim (Bool-cases (bytes_eq (getenv (codes "JWT_ACCESS_SECRET")) (codes ""))) [
        | inl empty ↦
            inl
              (_, Memᴰ.tail (Memᴰ.tail (Memᴰ.head refl)), (bytes_eq_iff _ _).0 empty, ground arith)
        | inr access ↦
            elim (Bool-cases (bytes_eq (getenv (codes "JWT_REFRESH_SECRET")) (codes ""))) [
              | inl empty ↦ inl (
                _,
                Memᴰ.tail (Memᴰ.tail (Memᴰ.tail (Memᴰ.head refl))),
                (bytes_eq_iff _ _).0 empty,
                ground arith,
              )
              | inr refresh ↦
                  let all : All IsGiven required = (database, (redis, (access, (refresh, tt)))) in
                  inr (all, load_durations all)
            ]
      ]
    ]
  ]

  default_durations :
      ((key fallback : Bytes) → getenv key ≡ [] → env_or getenv key fallback ≡ fallback)
      × (Duration.parse_duration go.part (codes "15m") ≡ ok (pos (15 * 60_000_000_000)))
      × (Duration.parse_duration go.part (codes "168h") ≡ ok (pos (7 * 24 * 3_600_000_000_000)))
      × (Duration.parse_duration go.part (codes "2m") ≡ ok (pos (2 * 60_000_000_000)))
  unfolding bytes_eq Duration.parse_duration
  default_durations = ((λ key fallback empty. rw empty refl), refl, refl, refl)

  -- Where the required variables are set, and PORT and the three durations are not, `Load` gives 15
  -- minutes and 7 days for the tokens, 2 minutes for the trending job, and the port 8080.
  pub load_defaults :
      All IsGiven required
      → All (λ setting. getenv setting.0 ≡ []) durations
      → getenv (codes "PORT") ≡ []
      → load go getenv
        ≡ returns (
            ok (record {
              database_url = getenv (codes "DATABASE_URL");
              redis_url = getenv (codes "REDIS_URL");
              jwt_access_secret = getenv (codes "JWT_ACCESS_SECRET");
              jwt_refresh_secret = getenv (codes "JWT_REFRESH_SECRET");
              jwt_access_ttl = pos (15 * 60_000_000_000);
              jwt_refresh_ttl = pos (7 * 24 * 3_600_000_000_000);
              trending_recompute_interval = pos (2 * 60_000_000_000);
              port = codes "8080";
            }))
  unfolding load parse_duration
  load_defaults (database, (redis, (access, (refresh, _)))) (e₁, (e₂, (e₃, _))) port =
      let (fallback, first, second, third) = default_durations in
      rw
        (
          database,
          redis,
          access,
          refresh,
          fallback (codes "JWT_ACCESS_TTL") (codes "15m") e₁,
          fallback (codes "JWT_REFRESH_TTL") (codes "168h") e₂,
          fallback (codes "TRENDING_RECOMPUTE_INTERVAL") (codes "2m") e₃,
          fallback (codes "PORT") (codes "8080") port,
          first,
          second,
          third,
        )
        refl
