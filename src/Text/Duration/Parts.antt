-- ===== src/Text/Duration/Parts.antt =====
-- How ParseDuration reads the digits and the unit of one part.
use feature_voting_system.Prelude.{
  ℕ, ◌+◌, ◌-◌, ◌*◌, ◌/◌, ◌^◌, ◌≤◌, ◌≡◌, ◌≢◌, refl, ◌⊎◌, inl, inr, false, [], ◌∷◌, ◌++◌, none, some,
  Bytes, arith, ltb, length, length-append, All, Bool-cases,
}
use feature_voting_system.Errors.{ok, err}
use feature_voting_system.Text.Decimal.{is_digit, read_digits}
use feature_voting_system.Text.Decimal.RoundTrip.{IsDigit}
use feature_voting_system.Text.Duration.{
  leading_int, with_unit, invalid, unknown_unit, cut_unit, ends_unit, unit_of, read_part,
}

-- A unit: it starts with neither a digit nor a point, and no such byte follows.
abbrev pub IsUnit : Bytes → Type 0
IsUnit u = (length u ≢ 0) × All (λ c. ends_unit c ≡ false) u

read_digits-le : (s : Bytes) (x : ℕ) → x ≤ (read_digits s x).0
unfolding read_digits
read_digits-le [] x = ground arith
read_digits-le (c ∷ s) x = ground (arith, read_digits-le s (x * 10 + (c - b'0')))

-- Up to the bound, `leadingInt` reads what the digits spell.
pub leading_int-read_digits :
    (s t : Bytes) (x : ℕ)
    → All IsDigit s
    → All (λ c. is_digit c ≡ false) t
    → (read_digits s x).0 ≤ 2 ^ 63
    → leading_int (s ++ t) x ≡ some ((read_digits s x).0, t)
unfolding leading_int read_digits
leading_int-read_digits [] [] x hs ht h = refl
leading_int-read_digits [] (c ∷ t) x hs ht h = ground (arith, ht.0)
leading_int-read_digits (c ∷ s) t x hs ht h = ground (
  arith,
  hs.0,
  leading_int-read_digits s t (x * 10 + (c - b'0')) hs.1 ht,
  read_digits-le s (x * 10 + (c - b'0')),
)

-- Digits are read up to the text behind them, or they spell too large a number.
pub leading_int-append :
    (s t : Bytes) (x : ℕ)
    → All IsDigit s
    → All (λ c. is_digit c ≡ false) t
    → (leading_int (s ++ t) x ≡ none) ⊎ ((v : ℕ) × (leading_int (s ++ t) x ≡ some (v, t)))
unfolding leading_int
leading_int-append [] [] x hs ht = inr (x, refl)
leading_int-append [] (c ∷ t) x hs ht = inr (x, ground (arith, ht.0))
leading_int-append (c ∷ s) t x hs ht =
    let y = x * 10 + (c - b'0') in
    elim (Bool-cases (ltb (2 ^ 63 / 10) x)) [
      | inl over ↦ inl (ground (arith, hs.0))
      | inr small ↦ elim (Bool-cases (ltb (2 ^ 63) y)) [
        | inl over ↦ inl (ground (arith, hs.0))
        | inr fits ↦ elim (leading_int-append s t y hs.1 ht) [
          | inl over ↦ inl (ground (arith, hs.0))
          | inr (v, read) ↦ inr (v, ground (arith, hs.0))
        ]
      ]
    ]

cut_unit-whole : (u : Bytes) → All (λ c. ends_unit c ≡ false) u → cut_unit u ≡ (u, [])
unfolding cut_unit
cut_unit-whole [] h = refl
cut_unit-whole (c ∷ u) h = ground (arith, h.0, cut_unit-whole u h.1)

pub ends_unit-is_digit :
    (u : Bytes) → All (λ c. ends_unit c ≡ false) u → All (λ c. is_digit c ≡ false) u
ends_unit-is_digit [] h = tt
ends_unit-is_digit (c ∷ u) h = (ground (arith, h.0), ends_unit-is_digit u h.1)

module _ (part : ℕ → ℕ → ℕ → ℕ) (orig : Bytes) where
  -- A text of digits and a unit is read as one part, unless the number is too large.
  pub read_part-unit :
      (c : ℕ) (s u : Bytes) (v : ℕ)
      → All IsDigit (c ∷ s)
      → IsUnit u
      → leading_int ((c ∷ s) ++ u) 0 ≡ some (v, u)
      → read_part part orig ((c ∷ s) ++ u)
        ≡ with_unit part orig v (record { number = 0; digits = 0; rest = u }) (u, [])
  unfolding read_part
  read_part-unit c s [] v hs hu int = absurd (hu.0 refl)
  read_part-unit c s (b ∷ u) v hs hu int =
      ground (arith, hs.0, hu.1.0, int, length-append s (b ∷ u), cut_unit-whole (b ∷ u) hu.1)

  pub read_part-too_large :
      (c : ℕ) (s u : Bytes)
      → All IsDigit (c ∷ s)
      → leading_int ((c ∷ s) ++ u) 0 ≡ none
      → read_part part orig ((c ∷ s) ++ u) ≡ err (invalid orig)
  unfolding read_part
  read_part-too_large c s u hs over = ground (arith, hs.0, over)

  pub with_unit-known :
      (v k : ℕ) (u : Bytes)
      → IsUnit u
      → unit_of u ≡ some k
      → v ≤ 2 ^ 63 / k
      → with_unit part orig v (record { number = 0; digits = 0; rest = u }) (u, []) ≡ ok (v * k, [])
  with_unit-known v k [] hu known small = absurd (hu.0 refl)
  with_unit-known v k (b ∷ u) hu known small = ground (arith, known, small)

  pub with_unit-unknown :
      (v : ℕ) (u : Bytes)
      → IsUnit u
      → unit_of u ≡ none
      → with_unit part orig v (record { number = 0; digits = 0; rest = u }) (u, [])
        ≡ err (unknown_unit u orig)
  with_unit-unknown v [] hu unknown = absurd (hu.0 refl)
  with_unit-unknown v (b ∷ u) hu unknown = ground (arith, unknown)
