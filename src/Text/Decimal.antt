-- ===== src/Text/Decimal.antt =====
-- Decimal numbers: `%d` of fmt.Sprintf, `strconv.ParseInt(s, 10, …)` and `%d` of fmt.Sscanf.
pub mod RoundTrip
use feature_voting_system.Prelude.{
  ℕ, zero, suc, ◌+◌, ◌-◌, ◌*◌, ◌/◌, ◌%◌, ◌^◌, Bool, ◌&&◌, List, [], ◌∷◌, Option, none, some, Bytes,
  codes, ℤ, pos, negsuc, pos_part, neg_part, leb, ◌==◌, if◌then◌else◌, length, ◌≡◌, refl,
}
use feature_voting_system.Text.Space.{drop_space}

-- The digits of `n` in front of `out`; each round divides by ten, so `n` rounds are enough.
write_digits : ℕ → ℕ → Bytes → Bytes
write_digits zero n out = out
write_digits (suc f) n out =
    let rest = write_digits f (n / 10) ((b'0' + n % 10) ∷ out) in if n == 0 then out else rest

abbrev write_nat : ℕ → Bytes
write_nat n = if n == 0 then codes "0" else write_digits n n []

-- `%d`
pub write_int : ℤ → Bytes
unfolding write_digits
write_int (pos n) = write_nat n
write_int (negsuc n) = b'-' ∷ write_nat (suc n)

abbrev pub is_digit : ℕ → Bool
is_digit c = leb b'0' c && leb c b'9'

-- The number that the leading digits spell behind `n`, and the rest.
unfoldable pub read_digits : Bytes → ℕ → ℕ × Bytes
read_digits [] n = (n, [])
read_digits (c ∷ s) n =
    let more = read_digits s (n * 10 + (c - b'0')) in if is_digit c then more else (n, c ∷ s)

-- At least one digit.
read_nat : Bytes → Option (ℕ × Bytes)
unfolding read_digits
read_nat [] = none
read_nat (c ∷ s) = if is_digit c then some (read_digits (c ∷ s) 0) else none

abbrev negated : ℕ → ℤ
negated zero = pos 0
negated (suc n) = negsuc n

abbrev signed : (ℕ → ℤ) → Option (ℕ × Bytes) → Option (ℤ × Bytes)
signed f none = none
signed f (some (n, rest)) = some (f n, rest)

-- A number with an optional sign, and the rest.
read_int : Bytes → Option (ℤ × Bytes)
unfolding read_nat
read_int [] = none
read_int (c ∷ s) =
    if c == b'-'
    then signed negated (read_nat s)
    else if c == b'+'
    then signed pos (read_nat s)
    else signed pos (read_nat (c ∷ s))

-- Does the number fit `bits` bits in two's complement?
abbrev pub fits : ℕ → ℤ → Bool
fits bits z = leb (pos_part z) (2 ^ (bits - 1) - 1) && leb (neg_part z) (2 ^ (bits - 1))

abbrev whole : ℕ → Option (ℤ × Bytes) → Option ℤ
whole bits none = none
whole bits (some (z, [])) = if fits bits z then some z else none
whole bits (some (z, c ∷ rest)) = none

-- `strconv.ParseInt(s, 10, bits)`
pub parse_int : ℕ → Bytes → Option ℤ
unfolding read_int
parse_int bits s = whole bits (read_int s)

-- `SkipSpace` of a scan of one line: a newline is an error.
abbrev starts_newline : Bytes → Bool
starts_newline [] = Bool.false
starts_newline (c ∷ s) = c == 10

skip_space : ℕ → Bytes → Option Bytes
unfolding drop_space
skip_space zero s = some s
skip_space (suc f) s =
    if starts_newline s
    then none
    else elim (drop_space s) [ none ↦ some s | some s' ↦ skip_space f s' ]

abbrev leading : ℕ → Option (ℤ × Bytes) → Option ℤ
leading bits none = none
leading bits (some (z, rest)) = if fits 64 z && fits bits z then some z else none

-- `fmt.Sscanf(s, "%d", &n)` for an n of `bits` bits: what follows the number is left unread.
pub sscan_int : ℕ → Bytes → Option ℤ
unfolding skip_space read_int
sscan_int bits s = elim (skip_space (length s) s) [
  | none ↦ none
  | some s' ↦ leading bits (read_int s')
]

print : write_int (negsuc 1233) ≡ codes "-1234"
unfolding write_int
print = refl

read_prefix : sscan_int 32 (codes "  +12x") ≡ some (pos 12)
unfolding sscan_int
read_prefix = refl

overflow : sscan_int 32 (codes "2147483648") ≡ none
unfolding sscan_int
overflow = refl

not_whole : (parse_int 32 (codes "12x") ≡ none) × (parse_int 32 (codes " 12") ≡ none)
unfolding parse_int
not_whole = (refl, refl)
