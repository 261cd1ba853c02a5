-- ===== src/Tests/Settings.antt =====
-- The settings of an environment, and durations.
use mathlib.Core.List.{Memᴰ}
use feature_voting_system.Prelude.{
  ℕ, ◌*◌, ◌/◌, ◌%◌, ◌^◌, ◌≡◌, ◌⊎◌, ◌↔◌, refl, [], ◌++◌, some, none, Bytes, codes, ℤ, pos, negsuc,
  wrapped, All, arith, bytes_eq, if◌then◌else◌,
}
use feature_voting_system.Errors.{plain, ok, err}
use feature_voting_system.Text.Decimal.{write_int}
use feature_voting_system.Text.Duration
use feature_voting_system.Config.{GoText, panics, missing, parse_duration, load}
use feature_voting_system.Config.Durations.{parse_duration-days, parse_duration-unit}
use feature_voting_system.Config.Settings.{
  required, loaded_config, IsGiven, IsRefused, IsAccepted, load-cases, durations,
}
use feature_voting_system.Jobs.Trending.{run, panicked, bad_interval}
use feature_voting_system.Server.Start.{
  PoolLib, RedisLib, Booted, new_pool, connect_redis, boot, serves, made,
}
use feature_voting_system.Server.Start.Serving.{boot-panicked}
use feature_voting_system.Server.Start.Environment.{IsStarted, boot-serves_iff}

abbrev exact : ℕ → ℕ → ℕ → ℕ
exact f k unit = f * unit / 10 ^ k

hours : Duration.parse_duration exact (codes "1h15m30.5s") ≡ ok (pos 4_530_500_000_000)
unfolding Duration.parse_duration bytes_eq
hours = refl

largest :
    Duration.parse_duration exact (codes "9223372036854775807ns")
    ≡ ok (pos 9_223_372_036_854_775_807)
unfolding Duration.parse_duration bytes_eq
largest = refl

pointless :
    Duration.parse_duration exact (codes ".s") ≡ err (plain (codes "time: invalid duration \".s\""))
unfolding Duration.parse_duration bytes_eq
pointless = refl

unknown :
    Duration.parse_duration exact (codes "7d")
    ≡ err (plain (codes "time: unknown unit \"d\" in duration \"7d\""))
unfolding Duration.parse_duration bytes_eq
unknown = refl

abbrev go : GoText
go = record { quoted = λ s. codes "\"" ++ (s ++ codes "\""); part = exact }

-- The variables of an environment, and "x" for those that are not named.
abbrev setting : Bytes → Bytes → Bytes → Bytes
setting key val name = if bytes_eq name key then val else codes "x"

abbrev bare : Bytes → Bytes
bare name =
    if bytes_eq name (codes "PORT")
    then codes ""
    else if bytes_eq name (codes "JWT_ACCESS_TTL")
    then codes ""
    else if bytes_eq name (codes "JWT_REFRESH_TTL")
    then codes ""
    else if bytes_eq name (codes "TRENDING_RECOMPUTE_INTERVAL")
    then codes ""
    else codes "x"

load-cases_example :
    ((key : Bytes) × Memᴰ key required × (bare key ≡ []) × (load go bare ≡ panics (missing go key)))
    ⊎ (All (IsGiven go bare) required
        × (IsRefused go bare (load go bare) ⊎ IsAccepted go bare (load go bare)))
load-cases_example = load-cases go bare

bare-IsGiven : All (IsGiven go bare) required
unfolding bytes_eq
bare-IsGiven = (refl, (refl, (refl, (refl, tt))))

bare_unset : All (λ s. bare s.0 ≡ []) durations × (bare (codes "PORT") ≡ [])
unfolding bytes_eq
bare_unset = ((refl, (refl, (refl, tt))), refl)

-- 106752 days are more than an int64 of nanoseconds holds.
abbrev long_time : Bytes → Bytes
long_time = λ _. write_int (pos 106_752) ++ codes "d"

parse_duration-days_example :
    parse_duration go long_time (codes "JWT_REFRESH_TTL") (codes "168h")
    ≡ ok (wrapped (106_752 * 86_400_000_000_000 % 2 ^ 64))
parse_duration-days_example =
    parse_duration-days go long_time (codes "JWT_REFRESH_TTL") (codes "168h") 106_752 refl
      (omega arith)

overflow : wrapped (106_752 * 86_400_000_000_000 % 2 ^ 64) ≡ negsuc 9_223_371_273_709_551_615
overflow = refl

abbrev half_an_hour : Bytes → Bytes
half_an_hour = λ _. write_int (pos 30) ++ codes "m"

parse_duration-unit_example :
    parse_duration go half_an_hour (codes "JWT_ACCESS_TTL") (codes "15m")
    ≡ ok (pos (30 * 60_000_000_000))
parse_duration-unit_example =
    parse_duration-unit go half_an_hour (codes "JWT_ACCESS_TTL") (codes "15m") (codes "m") 30
      60_000_000_000 refl (ground arith, (refl, tt)) (unfold bytes_eq in refl) (omega arith)

-- Libraries that accept everything; a pool is the address and the most and fewest connections.
abbrev pools : PoolLib (Bytes × ℕ × ℕ) (Bytes × ℕ × ℕ)
pools = record {
  parse_config = λ dsn. ok (dsn, 4, 0);
  set_max_conns = λ n c. (c.0, n, c.2);
  set_min_conns = λ n c. (c.0, c.1, n);
  new_with_config = λ c. ok c;
  ping = λ _. none;
}

abbrev redis : RedisLib Bytes Bytes
redis = record {
  parse_url = λ url. ok url;
  new_client = λ url. url;
  ping = λ _. some (plain (codes "connection refused"));
}

abbrev booted : Booted (Bytes × ℕ × ℕ) Bytes
booted =
    made pools redis
      (loaded_config bare (pos 900_000_000_000) (pos 604_800_000_000_000) (pos 120_000_000_000))
      (codes "x", 20, 2) (codes "x")

boot-serves_iff_example :
    (boot pools redis (load go bare) (ok tt) ≡ serves booted)
    ↔ IsStarted pools redis go bare (ok tt) booted
boot-serves_iff_example = boot-serves_iff pools redis go bare (ok tt) booted

-- Both sides hold here.
booted_here : boot pools redis (load go bare) (ok tt) ≡ serves booted
unfolding boot load parse_duration Duration.parse_duration new_pool connect_redis bytes_eq
booted_here = refl

-- A trending job that is never to run.
abbrev never : Bytes → Bytes
never name = if bytes_eq name (codes "TRENDING_RECOMPUTE_INTERVAL") then codes "0s" else bare name

never-IsGiven : All (IsGiven go never) required
unfolding bytes_eq
never-IsGiven = (refl, (refl, (refl, (refl, tt))))

never_durations :
    (parse_duration go never (codes "JWT_ACCESS_TTL") (codes "15m") ≡ ok (pos 900_000_000_000))
    × (parse_duration go never (codes "JWT_REFRESH_TTL") (codes "168h")
        ≡ ok (pos 604_800_000_000_000))
    × (parse_duration go never (codes "TRENDING_RECOMPUTE_INTERVAL") (codes "2m") ≡ ok (pos 0))
unfolding parse_duration Duration.parse_duration bytes_eq
never_durations = (refl, refl, refl)

never_pool : new_pool pools (never (codes "DATABASE_URL")) ≡ ok (codes "x", 20, 2)
unfolding new_pool bytes_eq
never_pool = refl

boot-panicked_example :
    (b : Booted (Bytes × ℕ × ℕ) Bytes) × (boot pools redis (load go never) (ok tt) ≡ serves b)
    × (run {Score = ℤ} {S = ℕ} b.trending_interval [] 7 ≡ panicked bad_interval 7)
unfolding bytes_eq
boot-panicked_example =
    boot-panicked pools redis {Score = ℤ} go never (pos 900_000_000_000) (pos 604_800_000_000_000)
      (pos 0) (codes "x", 20, 2) (codes "x") [] 7 never-IsGiven never_durations.0 never_durations.1
      never_durations.2 never_pool refl refl
