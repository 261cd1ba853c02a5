-- ===== src/Config/Durations.antt =====
-- What `parseDuration` of internal/config/config.go makes of a setting.
use mathlib.Core.Path.{subst}
use native.Mathlib.Nat.{le-div_iff_mul-le, div-le_self}
use feature_voting_system.Prelude.{
  ℕ, suc, ◌-◌, ◌*◌, ◌/◌, ◌%◌, ◌^◌, ◌≤◌, ◌<◌, ◌≡◌, refl, sym, ap, ◌∙◌, inl, inr, true, false, [],
  ◌∷◌, ◌++◌, Option, none, some, Bytes, codes, ℤ, pos, negsuc, wrapped, times_int64, IsInt64, arith,
  length, length-append, take-append, drop-append, Option-cases, bytes_eq, bytes_eq_refl,
}
use feature_voting_system.Errors.{Error, Result, ok, err, Result-cases}
use feature_voting_system.Text.Decimal.{write_int, fits, parse_int}
use feature_voting_system.Text.Decimal.RoundTrip.{parse-write}
use feature_voting_system.Text.Duration
use feature_voting_system.Text.Duration.{unit_of}
use feature_voting_system.Text.Duration.Loop.{duration-IsInt64}
use feature_voting_system.Text.Duration.Parts.{IsUnit}
use feature_voting_system.Text.Duration.Print.{
  parse-write_unit, parse-write_other, write_int-ne-nil, write_int-cons,
}
use feature_voting_system.Config.{
  GoText, hours_per_day, nanoseconds_per_hour, env_or, days_of, or_days, invalid_duration,
  parse_duration,
}

length-one : (xs : Bytes) (b : ℕ) → length (xs ++ (b ∷ [])) - 1 ≡ length xs
length-one xs b = omega (arith, length-append xs (b ∷ []))

days_of-append : (c : ℕ) (s : Bytes) → days_of ((c ∷ s) ++ codes "d") ≡ parse_int 64 (c ∷ s)
days_of-append c s =
    rw (length-one (c ∷ s) b'd', drop-append (c ∷ s) (codes "d"), take-append (c ∷ s) (codes "d"))
      (ground (arith, length-append s (codes "d"), bytes_eq_refl (codes "d")))

days-IsUnit : IsUnit (codes "d") × (unit_of (codes "d") ≡ none)
unfolding bytes_eq
days-IsUnit = ((omega arith, (refl, tt)), refl)

fits-pos : (n : ℕ) → n < 2 ^ 63 → fits 64 (pos n) ≡ true
fits-pos n h = ground (arith, h)

times-days :
    (n : ℕ)
    → n < 2 ^ 58
    → times_int64 (times_int64 (pos n) hours_per_day) nanoseconds_per_hour
      ≡ wrapped (n * 86_400_000_000_000 % 2 ^ 64)
times-days n h = ground (arith, h)

env_or-set :
    (getenv : Bytes → Bytes) (key fallback v : Bytes)
    → getenv key ≡ v
    → bytes_eq v (codes "") ≡ false
    → env_or getenv key fallback ≡ v
env_or-set getenv key fallback v set there = rw (set, there) refl

or_days-days :
    (go : GoText) (key raw : Bytes) (e : Error) (days : ℤ)
    → days_of raw ≡ some days
    → or_days go key raw (err e)
      ≡ ok (times_int64 (times_int64 days hours_per_day) nanoseconds_per_hour)
or_days-days go key raw e days h = ap (or_some go key raw e) h
  where
    or_some : GoText → Bytes → Bytes → Error → Option ℤ → Result ℤ
    or_some go key raw e o = elim o [
      | some days ↦ ok (times_int64 (times_int64 days hours_per_day) nanoseconds_per_hour)
      | none ↦ err (invalid_duration go key raw e)
    ]

unit_of-pos : (u : Bytes) (k : ℕ) → unit_of u ≡ some k → 0 < k
unit_of-pos u k known = ground arith

wrapped-IsInt64 : (m : ℕ) → IsInt64 (wrapped (m % 2 ^ 64))
wrapped-IsInt64 m = ground arith

times_int64-IsInt64 : (z : ℤ) (k : ℕ) → IsInt64 (times_int64 z k)
times_int64-IsInt64 (pos n) k = wrapped-IsInt64 (n * k)
times_int64-IsInt64 (negsuc n) k = wrapped-IsInt64 (2 ^ 64 - suc n * k % 2 ^ 64)

module _ (go : GoText) (getenv : Bytes → Bytes) where
  -- A setting of a number with the suffix `d` is read as that many days, with the wrap-around of a
  -- 64-bit product, for every number below 2^58.
  pub parse_duration-days :
      (key fallback : Bytes) (n : ℕ)
      → getenv key ≡ write_int (pos n) ++ codes "d"
      → n < 2 ^ 58
      → parse_duration go getenv key fallback ≡ ok (wrapped (n * 86_400_000_000_000 % 2 ^ 64))
  unfolding parse_duration
  parse_duration-days key fallback n set small =
      let raw = write_int (pos n) ++ codes "d" in
      let read = env_or-set getenv key fallback raw set (write_int-ne-nil n (codes "d")) in
      let (e, refused) = parse-write_other go.part n (codes "d") days-IsUnit.0 days-IsUnit.1 in
      let (c, s, starts) = write_int-cons n in
      let days : days_of raw ≡ some (pos n) =
        subst (λ t. days_of (t ++ codes "d") ≡ parse_int 64 t) (sym starts) (days_of-append c s)
        ∙ parse-write 64 (pos n) (fits-pos n (omega arith)) in
      rw (read, refused) (or_days-days go key raw e (pos n) days ∙ ap ok (times-days n small))

  -- A setting of a number in front of one of ParseDuration's units is read as that many of the
  -- unit, if the product fits an int64.
  pub parse_duration-unit :
      (key fallback u : Bytes) (n k : ℕ)
      → getenv key ≡ write_int (pos n) ++ u
      → IsUnit u
      → unit_of u ≡ some k
      → n * k ≤ 2 ^ 63 - 1
      → parse_duration go getenv key fallback ≡ ok (pos (n * k))
  unfolding parse_duration
  parse_duration-unit key fallback u n k set hu known small =
      let raw = write_int (pos n) ++ u in
      let read = env_or-set getenv key fallback raw set (write_int-ne-nil n u) in
      let fits : n ≤ 2 ^ 63 / k =
        (le-div_iff_mul-le (unit_of-pos u k known)).1 (omega (arith, small)) in
      let bounded : n ≤ 2 ^ 63 = omega (arith, fits, div-le_self (2 ^ 63) k) in
      rw (read, parse-write_unit go.part n k u hu known fits small bounded) refl

  -- Every duration that is returned is an int64.
  pub parse_duration-IsInt64 :
      (key fallback : Bytes) (d : ℤ) → parse_duration go getenv key fallback ≡ ok d → IsInt64 d
  unfolding parse_duration
  parse_duration-IsInt64 key fallback d h =
      let raw = env_or getenv key fallback in
      elim (Result-cases (Duration.parse_duration go.part raw)) [
        | inl (z, read) ↦
            let same : z ≡ d = ground arith in rw (← same) (duration-IsInt64 go.part raw z read)
        | inr (e, refused) ↦ elim (Option-cases (days_of raw)) [
          | inl no_days ↦ ground arith
          | inr (days, read) ↦
              let same : times_int64 (times_int64 days hours_per_day) nanoseconds_per_hour ≡ d =
                ground arith in
              rw (← same)
                (times_int64-IsInt64 (times_int64 days hours_per_day) nanoseconds_per_hour)
        ]
      ]
