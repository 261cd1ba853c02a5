-- ===== src/Text/Duration/Print.antt =====
-- What ParseDuration makes of a number in front of one unit.
use mathlib.Core.Path.{subst}
use feature_voting_system.Prelude.{
  ℕ, suc, ◌-◌, ◌*◌, ◌/◌, ◌^◌, ◌≤◌, ◌≡◌, refl, ap, ◌∙◌, inl, inr, true, false, [], ◌∷◌, ◌++◌, none,
  some, Bytes, codes, ℤ, pos, arith, ◌==◌, length, All, bytes_eq,
}
use feature_voting_system.Errors.{Error, Result, ok, err}
use feature_voting_system.Text.Decimal.{is_digit, read_digits, write_int}
use feature_voting_system.Text.Decimal.RoundTrip.{
  IsDigit, StartsDigit, write_int-IsDigit, write_int-StartsDigit, read_digits-write_int,
}
use feature_voting_system.Text.Duration.{
  leading_int, invalid, unknown_unit, unit_of, read_part, sum_parts, signed_sum, unsigned,
  parse_duration,
}
use feature_voting_system.Text.Duration.Parts.{
  IsUnit, leading_int-read_digits, leading_int-append, ends_unit-is_digit, read_part-unit,
  read_part-too_large, with_unit-known, with_unit-unknown,
}

not_single : (c d b : ℕ) (s u : Bytes) → bytes_eq (c ∷ (s ++ (b ∷ u))) (d ∷ []) ≡ false
unfolding bytes_eq
not_single c d b [] u = ground arith
not_single c d b (a ∷ s) u = ground arith

-- It returns an error.
abbrev pub Fails : Result ℤ → Type 0
Fails r = (e : Error) × (r ≡ err e)

module _ (part : ℕ → ℕ → ℕ → ℕ) where
  sum_parts-ok :
      (out : Result ℕ) (fuel : ℕ) (orig : Bytes) (c : ℕ) (s : Bytes) (v : ℕ)
      → read_part part orig (c ∷ s) ≡ ok (v, [])
      → v ≤ 2 ^ 63
      → sum_parts part out (suc fuel) orig (c ∷ s) 0 ≡ ok v
  unfolding sum_parts
  sum_parts-ok out fuel orig c s v read small = ground (arith, read)

  sum_parts-err :
      (out : Result ℕ) (fuel : ℕ) (orig : Bytes) (c : ℕ) (s : Bytes) (e : Error)
      → read_part part orig (c ∷ s) ≡ err e
      → sum_parts part out (suc fuel) orig (c ∷ s) 0 ≡ err e
  unfolding sum_parts
  sum_parts-err out fuel orig c s e read = ground (arith, read)

  parse_duration-digit :
      (c b : ℕ) (s u : Bytes)
      → is_digit c ≡ true
      → let orig = c ∷ (s ++ (b ∷ u)) in
        parse_duration part orig
        ≡ signed_sum part orig false
            (sum_parts part (err (invalid orig)) (suc (length (s ++ (b ∷ u)))) orig orig 0)
  unfolding parse_duration
  parse_duration-digit c b s u digit =
      let orig = c ∷ (s ++ (b ∷ u)) in
      let not_minus : (c == b'-') ≡ false = ground (arith, digit) in
      let not_plus : (c == b'+') ≡ false = ground (arith, digit) in
      let no_sign : parse_duration part orig ≡ unsigned part orig false orig =
        rw (not_minus, not_plus) refl in
      no_sign ∙ rw (not_single c b'0' b s u) refl

  digits-unit :
      (s u : Bytes) (n k : ℕ)
      → StartsDigit s
      → All IsDigit s
      → read_digits s 0 ≡ (n, [])
      → IsUnit u
      → unit_of u ≡ some k
      → n ≤ 2 ^ 63 / k
      → n * k ≤ 2 ^ 63 - 1
      → n ≤ 2 ^ 63
      → parse_duration part (s ++ u) ≡ ok (pos (n * k))
  unfolding parse_duration
  digits-unit [] u n k start hs number hu known small fits whole = absurd start
  digits-unit (c ∷ s) [] n k start hs number hu known small fits whole = absurd (hu.0 refl)
  digits-unit (c ∷ s) (b ∷ u) n k start hs number hu known small fits whole =
      let orig = (c ∷ s) ++ (b ∷ u) in
      let int : leading_int orig 0 ≡ some (n, b ∷ u) =
        subst (λ (q : ℕ × Bytes). leading_int orig 0 ≡ some (q.0, b ∷ u)) number
          (leading_int-read_digits (c ∷ s) (b ∷ u) 0 hs (ends_unit-is_digit (b ∷ u) hu.1)
            (ground (arith, number))) in
      let read : read_part part orig orig ≡ ok (n * k, []) =
        read_part-unit part orig c s (b ∷ u) n hs hu int
        ∙ with_unit-known part orig n k (b ∷ u) hu known small in
      let sum =
        sum_parts-ok (err (invalid orig)) (length (s ++ (b ∷ u))) orig c (s ++ (b ∷ u)) (n * k) read
          (omega arith) in
      parse_duration-digit c b s u hs.0
      ∙ (ap (signed_sum part orig false) sum ∙ ground (arith, whole))

  digits-other :
      (s u : Bytes)
      → StartsDigit s
      → All IsDigit s
      → IsUnit u
      → unit_of u ≡ none
      → Fails (parse_duration part (s ++ u))
  unfolding parse_duration
  digits-other [] u start hs hu unknown = absurd start
  digits-other (c ∷ s) [] start hs hu unknown = absurd (hu.0 refl)
  digits-other (c ∷ s) (b ∷ u) start hs hu unknown =
      let orig = (c ∷ s) ++ (b ∷ u) in
      let fails : (e : Error)
          → read_part part orig orig ≡ err e
          → Fails (parse_duration part orig) =
        λ e read. (
          e,
          parse_duration-digit c b s u hs.0
              ∙ ap (signed_sum part orig false) (
                  sum_parts-err (err (invalid orig)) (length (s ++ (b ∷ u))) orig c (s ++ (b ∷ u)) e
                    read),
        ) in
      elim (leading_int-append (c ∷ s) (b ∷ u) 0 hs (ends_unit-is_digit (b ∷ u) hu.1)) [
        | inl over ↦ fails (invalid orig) (read_part-too_large part orig c s (b ∷ u) hs over)
        | inr (v, int) ↦ fails (unknown_unit (b ∷ u) orig) (
            read_part-unit part orig c s (b ∷ u) v hs hu int
            ∙ with_unit-unknown part orig v (b ∷ u) hu unknown)
      ]

  -- A number in front of a unit is read as that many of the unit, if they fit an int64.
  pub parse-write_unit :
      (n k : ℕ) (u : Bytes)
      → IsUnit u
      → unit_of u ≡ some k
      → n ≤ 2 ^ 63 / k
      → n * k ≤ 2 ^ 63 - 1
      → n ≤ 2 ^ 63
      → parse_duration part (write_int (pos n) ++ u) ≡ ok (pos (n * k))
  parse-write_unit n k u hu known small fits whole =
      digits-unit (write_int (pos n)) u n k (write_int-StartsDigit n) (write_int-IsDigit n)
        (read_digits-write_int n) hu known small fits whole

  -- Behind another unit it is refused.
  pub parse-write_other :
      (n : ℕ) (u : Bytes)
      → IsUnit u
      → unit_of u ≡ none
      → Fails (parse_duration part (write_int (pos n) ++ u))
  parse-write_other n u =
      digits-other (write_int (pos n)) u (write_int-StartsDigit n) (write_int-IsDigit n)

pub write_int-ne-nil : (n : ℕ) (u : Bytes) → bytes_eq (write_int (pos n) ++ u) (codes "") ≡ false
write_int-ne-nil n u = starts (write_int (pos n)) (write_int-StartsDigit n)
  where
    starts : (s : Bytes) → StartsDigit s → bytes_eq (s ++ u) (codes "") ≡ false
    starts [] h = absurd h
    starts (c ∷ s) h = unfold bytes_eq in refl

pub write_int-cons : (n : ℕ) → (c : ℕ) × (s : Bytes) × (write_int (pos n) ≡ c ∷ s)
write_int-cons n = starts (write_int (pos n)) (write_int-StartsDigit n)
  where
    starts : (t : Bytes) → StartsDigit t → (c : ℕ) × (s : Bytes) × (t ≡ c ∷ s)
    starts [] h = absurd h
    starts (c ∷ s) h = (c, s, refl)
