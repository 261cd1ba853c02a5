-- ===== src/Text/Decimal/RoundTrip.antt =====
-- What is printed is read back.
use feature_voting_system.Prelude.{
  ℕ, zero, suc, ◌+◌, ◌/◌, ◌%◌, ◌≤◌, ◌≡◌, refl, true, false, [], ◌∷◌, some, none, Bytes, ℤ, pos,
  negsuc, arith, ◌==◌, Bool-cases, inl, inr, length, All,
}
use feature_voting_system.Text.Space.{drop_space}
use feature_voting_system.Text.Decimal.{
  write_digits, write_nat, write_int, is_digit, read_digits, read_nat, read_int, fits, parse_int,
  skip_space, signed, sscan_int,
}

read-write_digits :
    (f n : ℕ) (out : Bytes) → n ≤ f → read_digits (write_digits f n out) 0 ≡ read_digits out n
unfolding write_digits read_digits
read-write_digits zero n out h = ground arith
read-write_digits (suc f) n out h =
    ground (arith, read-write_digits f (n / 10) ((b'0' + n % 10) ∷ out))

abbrev pub StartsDigit : Bytes → Type 0
StartsDigit [] = ⊥
StartsDigit (c ∷ s) = is_digit c ≡ true

write_digits-StartsDigit :
    (f n : ℕ) (out : Bytes) → StartsDigit out → StartsDigit (write_digits f n out)
unfolding write_digits
write_digits-StartsDigit zero n out h = h
write_digits-StartsDigit (suc f) n out h = elim (Bool-cases (n == 0)) [
  | inl done ↦ rw done h
  | inr more ↦ rw more (write_digits-StartsDigit f (n / 10) ((b'0' + n % 10) ∷ out) (ground arith))
]

suc_ne_zero : (n : ℕ) → (suc n == 0) ≡ false
suc_ne_zero n = ground arith

write_nat-StartsDigit : (n : ℕ) → StartsDigit (write_nat n)
write_nat-StartsDigit zero = refl
write_nat-StartsDigit (suc n) =
    unfold write_digits in
    rw (suc_ne_zero n)
      (write_digits-StartsDigit n (suc n / 10) ((b'0' + suc n % 10) ∷ []) (ground arith))

-- Every number is read back from its print, to the end of the text.
read-write_nat : (n : ℕ) → read_digits (write_nat n) 0 ≡ (n, [])
unfolding read_digits
read-write_nat n = elim (Bool-cases (n == 0)) [
  | inl null ↦ rw null (ground arith)
  | inr some_digits ↦ rw some_digits (read-write_digits n n [] (omega arith))
]

read_nat_digits : (s : Bytes) → StartsDigit s → read_nat s ≡ some (read_digits s 0)
unfolding read_nat
read_nat_digits [] h = absurd h
read_nat_digits (c ∷ s) h = rw h

read_int_digits : (s : Bytes) → StartsDigit s → read_int s ≡ signed pos (some (read_digits s 0))
unfolding read_int
read_int_digits [] h = absurd h
read_int_digits (c ∷ s) h = ground (arith, read_nat_digits (c ∷ s) h)

read-write_int : (z : ℤ) → read_int (write_int z) ≡ some (z, [])
unfolding write_int
read-write_int (pos n) =
    rw (read_int_digits (write_nat n) (write_nat-StartsDigit n), read-write_nat n)
read-write_int (negsuc n) =
    unfold read_int in
    rw (read_nat_digits (write_nat (suc n)) (write_nat-StartsDigit (suc n)), read-write_nat (suc n))

-- What `%d` prints, ParseInt reads back, if it fits the width.
pub parse-write : (bits : ℕ) (z : ℤ) → fits bits z ≡ true → parse_int bits (write_int z) ≡ some z
unfolding parse_int
parse-write bits z h = rw (read-write_int z, h)

abbrev StartsPlain : Bytes → Type 0
StartsPlain [] = ⊥
StartsPlain (c ∷ s) = (b'-' ≤ c) × (c ≤ b'9')

drop_space_plain : (s : Bytes) → StartsPlain s → drop_space s ≡ none
unfolding drop_space
drop_space_plain [] h = absurd h
drop_space_plain (a ∷ []) h = ground arith
drop_space_plain (a ∷ b ∷ []) h = ground arith
drop_space_plain (a ∷ b ∷ c ∷ s) h = ground arith

skip_space_plain : (f : ℕ) (s : Bytes) → StartsPlain s → skip_space f s ≡ some s
unfolding skip_space
skip_space_plain zero s h = refl
skip_space_plain (suc f) [] h = absurd h
skip_space_plain (suc f) (c ∷ s) h = ground (arith, drop_space_plain (c ∷ s) h)

StartsDigit-StartsPlain : (s : Bytes) → StartsDigit s → StartsPlain s
StartsDigit-StartsPlain [] h = absurd h
StartsDigit-StartsPlain (c ∷ s) h = ground arith

write_int-StartsPlain : (z : ℤ) → StartsPlain (write_int z)
unfolding write_int
write_int-StartsPlain (pos n) = StartsDigit-StartsPlain (write_nat n) (write_nat-StartsDigit n)
write_int-StartsPlain (negsuc n) = omega arith

-- What `%d` prints, Sscanf with `%d` reads back, if it fits the variable.
pub sscan-write :
    (bits : ℕ) (z : ℤ)
    → fits 64 z ≡ true
    → fits bits z ≡ true
    → sscan_int bits (write_int z) ≡ some z
unfolding sscan_int
sscan-write bits z wide narrow = ground (
  arith,
  skip_space_plain (length (write_int z)) (write_int z) (write_int-StartsPlain z),
  read-write_int z,
)

-- A print holds digits and a dash.
abbrev pub IsPlain : ℕ → Type 0
IsPlain c = (b'-' ≤ c) × (c ≤ b'9')

write_digits-IsPlain :
    (f n : ℕ) (out : Bytes) → All IsPlain out → All IsPlain (write_digits f n out)
unfolding write_digits
write_digits-IsPlain zero n out h = h
write_digits-IsPlain (suc f) n out h = elim (Bool-cases (n == 0)) [
  | inl done ↦ rw done h
  | inr more ↦ rw more (write_digits-IsPlain f (n / 10) ((b'0' + n % 10) ∷ out) (omega arith, h))
]

write_nat-IsPlain : (n : ℕ) → All IsPlain (write_nat n)
write_nat-IsPlain zero = omega arith
write_nat-IsPlain (suc n) = rw (suc_ne_zero n) (write_digits-IsPlain (suc n) (suc n) [] tt)

abbrev pub IsDigit : ℕ → Type 0
IsDigit c = is_digit c ≡ true

write_digits-IsDigit :
    (f n : ℕ) (out : Bytes) → All IsDigit out → All IsDigit (write_digits f n out)
unfolding write_digits
write_digits-IsDigit zero n out h = h
write_digits-IsDigit (suc f) n out h = elim (Bool-cases (n == 0)) [
  | inl done ↦ rw done h
  | inr more ↦ rw more (write_digits-IsDigit f (n / 10) ((b'0' + n % 10) ∷ out) (ground arith, h))
]

-- The print of a number that is not negative holds digits only.
pub write_int-IsDigit : (n : ℕ) → All IsDigit (write_int (pos n))
unfolding write_int
write_int-IsDigit n = elim (Bool-cases (n == 0)) [
  | inl null ↦ rw null (ground arith)
  | inr some_digits ↦ rw some_digits (write_digits-IsDigit n n [] tt)
]

pub read_digits-write_int : (n : ℕ) → read_digits (write_int (pos n)) 0 ≡ (n, [])
unfolding write_int
read_digits-write_int n = read-write_nat n

pub write_int-StartsDigit : (n : ℕ) → StartsDigit (write_int (pos n))
unfolding write_int
write_int-StartsDigit n = write_nat-StartsDigit n

pub write_int-IsPlain : (z : ℤ) → All IsPlain (write_int z)
unfolding write_int
write_int-IsPlain (pos n) = write_nat-IsPlain n
write_int-IsPlain (negsuc n) = (omega arith, write_nat-IsPlain (suc n))
