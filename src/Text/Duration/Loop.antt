-- ===== src/Text/Duration/Loop.antt =====
-- The loop of ParseDuration: each part shortens the text.
use feature_voting_system.Prelude.{
  ℕ, zero, suc, ◌+◌, ◌-◌, ◌*◌, ◌%◌, ◌^◌, ◌≤◌, ◌<◌, ◌≡◌, refl, inl, inr, Bool, true, false, not,
  ◌&&◌, [], ◌∷◌, some, Bytes, codes, arith, ltb, ◌==◌, length, ℤ, IsInt64, bytes_eq, Bool-cases,
  Option-cases,
}
use feature_voting_system.Errors.{Result, ok, err, Result-cases}
use feature_voting_system.Text.Duration.{
  leading_int, Fraction, leading_fraction, opt_fraction, has_fraction, ends_unit, cut_unit, unit_of,
  scaled, with_unit, read_part, sum_parts, signed_sum, unsigned, invalid, parse_duration,
}

leading_int-le :
    (s : Bytes) (x v : ℕ) (rest : Bytes) → leading_int s x ≡ some (v, rest) → length rest ≤ length s
unfolding leading_int
leading_int-le [] x v rest h = ground arith
leading_int-le (c ∷ s) x v rest h = ground (arith, leading_int-le s (x * 10 + (c - b'0')) v rest)

leading_fraction-le :
    (s : Bytes) (over : Bool) (x k : ℕ) → length (leading_fraction s over x k).rest ≤ length s
unfolding leading_fraction
leading_fraction-le [] over x k = ground arith
leading_fraction-le (c ∷ s) over x k = ground (
  arith,
  leading_fraction-le s true x k,
  leading_fraction-le s false (x * 10 + (c - b'0')) (suc k),
)

opt_fraction-le : (s : Bytes) → length (opt_fraction s).rest ≤ length s
opt_fraction-le [] = ground arith
opt_fraction-le (c ∷ s) = ground (arith, leading_fraction-le s false 0 0)

cut_unit-le : (s : Bytes) → length (cut_unit s).0 + length (cut_unit s).1 ≡ length s
unfolding cut_unit
cut_unit-le [] = refl
cut_unit-le (c ∷ s) = ground (arith, cut_unit-le s)

module _ (part : ℕ → ℕ → ℕ → ℕ) (orig : Bytes) where
  with_unit-lt :
      (v n : ℕ) (f : Fraction) (u rest rest' : Bytes)
      → with_unit part orig v f (u, rest) ≡ ok (n, rest')
      → length rest' < length u + length rest
  with_unit-lt v n f [] rest rest' h = ground arith
  with_unit-lt v n f (c ∷ u) rest rest' h = elim (Option-cases (unit_of (c ∷ u))) [
    | inl unknown ↦ ground arith
    | inr (unit, known) ↦ elim (Result-cases (scaled part orig v f unit)) [
      | inl (m, fits) ↦ ground arith
      | inr (e, over) ↦ ground arith
    ]
  ]

  read_part-lt :
      (s : Bytes) (n : ℕ) (rest : Bytes)
      → read_part part orig s ≡ ok (n, rest)
      → length rest < length s
  unfolding read_part
  read_part-lt [] n rest h = ground arith
  read_part-lt (c ∷ s) n rest h = elim (Bool-cases (ends_unit c)) [
    | inr other ↦ ground arith
    | inl number ↦ elim (Option-cases (leading_int (c ∷ s) 0)) [
      | inl over ↦ ground arith
      | inr ((v, s'), int) ↦
          elim (Bool-cases (length s' == suc (length s) && not (has_fraction s'))) [
            | inl no_digits ↦ ground arith
            | inr digits ↦
                let f = opt_fraction s' in
                let u = cut_unit f.rest in
                let whole : with_unit part orig v f (u.0, u.1) ≡ ok (n, rest) = ground arith in
                omega (
                  arith,
                  with_unit-lt v n f u.0 u.1 rest whole,
                  cut_unit-le f.rest,
                  opt_fraction-le s',
                  leading_int-le (c ∷ s) 0 v s' int,
                )
          ]
    ]
  ]

  -- With fuel for the bytes of the text the loop ends by itself: what it gives does not depend on
  -- the fuel, nor on what it would give where the fuel ends.
  pub sum_parts-fuel :
      (out out' : Result ℕ) (fuel fuel' : ℕ) (s : Bytes) (d : ℕ)
      → length s ≤ fuel
      → length s ≤ fuel'
      → sum_parts part out fuel orig s d ≡ sum_parts part out' fuel' orig s d
  unfolding sum_parts
  sum_parts-fuel out out' fuel fuel' [] d h h' = refl
  sum_parts-fuel out out' zero fuel' (c ∷ s) d h h' = absurd (omega arith)
  sum_parts-fuel out out' (suc fuel) zero (c ∷ s) d h h' = absurd (omega arith)
  sum_parts-fuel out out' (suc fuel) (suc fuel') (c ∷ s) d h h' =
      elim (Result-cases (read_part part orig (c ∷ s))) [
        | inr (e, failed) ↦ ground arith
        | inl ((v, rest), read) ↦
            let shorter = read_part-lt (c ∷ s) v rest read in
            let d' = (d + v) % 2 ^ 64 in
            elim (Bool-cases (ltb (2 ^ 63) d')) [
              | inl over ↦ ground arith
              | inr within ↦
                  ground
                    (arith, sum_parts-fuel out out' fuel fuel' rest d' (omega arith) (omega arith))
            ]
      ]

module _ (part : ℕ → ℕ → ℕ → ℕ) where
  signed_sum-IsInt64 :
      (orig : Bytes) (neg : Bool) (r : Result ℕ) (z : ℤ)
      → signed_sum part orig neg r ≡ ok z
      → IsInt64 z
  signed_sum-IsInt64 orig neg (err e) z h = ground arith
  signed_sum-IsInt64 orig true (ok d) z h = ground arith
  signed_sum-IsInt64 orig false (ok d) z h = ground arith

  unsigned-IsInt64 :
      (orig : Bytes) (neg : Bool) (s : Bytes) (z : ℤ) → unsigned part orig neg s ≡ ok z → IsInt64 z
  unsigned-IsInt64 orig neg [] z h = ground arith
  unsigned-IsInt64 orig neg (c ∷ s) z h = elim (Bool-cases (bytes_eq (c ∷ s) (codes "0"))) [
    | inl null ↦ ground arith
    | inr other ↦
        signed_sum-IsInt64 orig neg
          (sum_parts part (err (invalid orig)) (suc (length s)) orig (c ∷ s) 0) z (ground arith)
  ]

  -- A duration that is read is an int64.
  pub duration-IsInt64 : (s : Bytes) (z : ℤ) → parse_duration part s ≡ ok z → IsInt64 z
  unfolding parse_duration
  duration-IsInt64 [] z h = ground arith
  duration-IsInt64 (c ∷ s) z h = elim (Bool-cases (c == b'-')) [
    | inl minus ↦ unsigned-IsInt64 (c ∷ s) true s z (ground arith)
    | inr more ↦ elim (Bool-cases (c == b'+')) [
      | inl plus ↦ unsigned-IsInt64 (c ∷ s) false s z (ground arith)
      | inr plain ↦ unsigned-IsInt64 (c ∷ s) false (c ∷ s) z (ground arith)
    ]
  ]
