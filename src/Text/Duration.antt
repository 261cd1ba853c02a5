-- ===== src/Text/Duration.antt =====
-- `time.ParseDuration` of Go's time package: a sum of decimal numbers with units, in nanoseconds.

pub mod Loop
pub mod Parts
pub mod Print
use feature_voting_system.Prelude.{
  ℕ, zero, suc, ◌+◌, ◌-◌, ◌*◌, ◌/◌, ◌%◌, ◌^◌, Bool, true, false, not, ◌&&◌, ◌||◌, [], ◌∷◌, ◌++◌,
  Option, none, some, Bytes, codes, bytes_eq, ℤ, pos, negated_int64, ltb, leb, ◌==◌, if◌then◌else◌,
  length,
}
use feature_voting_system.Errors.{Error, plain, Result, ok, err}
use feature_voting_system.Text.Decimal.{is_digit}

abbrev hex_digit : ℕ → ℕ
hex_digit n = if ltb n 10 then b'0' + n else b'a' + (n - 10)

abbrev quote_byte : ℕ → Bytes
quote_byte c =
    if leb 128 c || ltb c 32
    then b'\\' ∷ b'x' ∷ hex_digit (c / 16) ∷ hex_digit (c % 16) ∷ []
    else if c == b'\"' || c == b'\\'
    then b'\\' ∷ c ∷ []
    else c ∷ []

quote_each : Bytes → Bytes
quote_each [] = []
quote_each (c ∷ s) = quote_byte c ++ quote_each s

-- `quote` of the same package
abbrev quote : Bytes → Bytes
quote s = b'\"' ∷ (quote_each s ++ codes "\"")

abbrev invalid : Bytes → Error
invalid orig = plain (codes "time: invalid duration " ++ quote orig)

abbrev missing_unit : Bytes → Error
missing_unit orig = plain (codes "time: missing unit in duration " ++ quote orig)

abbrev unknown_unit : Bytes → Bytes → Error
unknown_unit u orig =
    plain (codes "time: unknown unit " ++ (quote u ++ (codes " in duration " ++ quote orig)))

-- `unitMap`; the micro sign is U+00B5 or U+03BC.
abbrev pub unit_of : Bytes → Option ℕ
unit_of u =
    if bytes_eq u (codes "ns")
    then some 1
    else if bytes_eq u (codes "us")
    then some 1_000
    else if bytes_eq u (0xC2 ∷ 0xB5 ∷ codes "s")
    then some 1_000
    else if bytes_eq u (0xCE ∷ 0xBC ∷ codes "s")
    then some 1_000
    else if bytes_eq u (codes "ms")
    then some 1_000_000
    else if bytes_eq u (codes "s")
    then some 1_000_000_000
    else if bytes_eq u (codes "m")
    then some 60_000_000_000
    else if bytes_eq u (codes "h")
    then some 3_600_000_000_000
    else none

-- `leadingInt`: the digits of a number up to 2^63, and the rest.
unfoldable leading_int : Bytes → ℕ → Option (ℕ × Bytes)
leading_int [] x = some (x, [])
leading_int (c ∷ s) x =
    let y = x * 10 + (c - b'0') in
    let more = leading_int s y in
    if is_digit c
    then if ltb (2 ^ 63 / 10) x || ltb (2 ^ 63) y then none else more
    else some (x, c ∷ s)

-- The digits behind the point: their number, how many of them it has, and the rest. A digit that
-- would make it too large, and those that follow, are passed over.
record Fraction : Type 0 where
  number : ℕ
  digits : ℕ
  rest : Bytes

unfoldable leading_fraction : Bytes → Bool → ℕ → ℕ → Fraction
leading_fraction [] over x k = record { number = x; digits = k; rest = [] }
leading_fraction (c ∷ s) over x k =
    let y = x * 10 + (c - b'0') in
    let full = over || ltb ((2 ^ 63 - 1) / 10) x || ltb (2 ^ 63) y in
    let passed = leading_fraction s true x k in
    let more = leading_fraction s false y (suc k) in
    if is_digit c
    then if full then passed else more
    else record { number = x; digits = k; rest = c ∷ s }

abbrev ends_unit : ℕ → Bool
ends_unit c = c == b'.' || is_digit c

-- The text up to the next digit or point, and the rest.
unfoldable cut_unit : Bytes → Bytes × Bytes
cut_unit [] = ([], [])
cut_unit (c ∷ s) = let (u, rest) = cut_unit s in if ends_unit c then ([], c ∷ s) else (c ∷ u, rest)

abbrev opt_fraction : Bytes → Fraction
opt_fraction [] = record { number = 0; digits = 0; rest = [] }
opt_fraction (c ∷ s) =
    let f = leading_fraction s false 0 0 in
    if c == b'.' then f else record { number = 0; digits = 0; rest = c ∷ s }

-- A point was there, and a digit behind it.
abbrev has_fraction : Bytes → Bool
has_fraction [] = false
has_fraction (c ∷ s) = c == b'.' && not (length (leading_fraction s false 0 0).rest == length s)

-- `part f k unit` is `uint64(float64(f) * (float64(unit) / scale))`, where the scale is the k-th
-- power of ten: the nanoseconds of a fraction, in floating point.
module _ (part : ℕ → ℕ → ℕ → ℕ) where
  abbrev scaled : Bytes → ℕ → Fraction → ℕ → Result ℕ
  scaled orig v f unit =
      let whole = v * unit in
      let sum = (whole + part f.number f.digits unit) % 2 ^ 64 in
      if ltb (2 ^ 63 / unit) v
      then err (invalid orig)
      else if f.number == 0
      then ok whole
      else if ltb (2 ^ 63) sum
      then err (invalid orig)
      else ok sum

  abbrev with_unit : Bytes → ℕ → Fraction → Bytes × Bytes → Result (ℕ × Bytes)
  with_unit orig v f ([], rest) = err (missing_unit orig)
  with_unit orig v f (c ∷ u, rest) = elim (unit_of (c ∷ u)) [
    | none ↦ err (unknown_unit (c ∷ u) orig)
    | some unit ↦ elim (scaled orig v f unit) [ err e ↦ err e | ok n ↦ ok (n, rest) ]
  ]

  -- One number with its unit, in nanoseconds, and the rest.
  unfoldable read_part : Bytes → Bytes → Result (ℕ × Bytes)
  unfolding leading_int leading_fraction cut_unit
  read_part orig [] = err (invalid orig)
  read_part orig (c ∷ s) = elim (ends_unit c) [
    | false ↦ err (invalid orig)
    | true ↦ elim (leading_int (c ∷ s) 0) [
      | none ↦ err (invalid orig)
      | some (v, s') ↦ elim (length s' == suc (length s) && not (has_fraction s')) [
        | true ↦ err (invalid orig)
        | false ↦ with_unit orig v (opt_fraction s') (cut_unit (opt_fraction s').rest)
      ]
    ]
  ]

  -- The loop over the parts; `out` is what it gives where its fuel ends.
  unfoldable sum_parts : Result ℕ → ℕ → Bytes → Bytes → ℕ → Result ℕ
  unfolding read_part
  sum_parts out fuel orig [] d = ok d
  sum_parts out zero orig (c ∷ s) d = out
  sum_parts out (suc fuel) orig (c ∷ s) d = elim (read_part orig (c ∷ s)) [
    | err e ↦ err e
    | ok (v, rest) ↦ elim (ltb (2 ^ 63) ((d + v) % 2 ^ 64)) [
      | true ↦ err (invalid orig)
      | false ↦ sum_parts out fuel orig rest ((d + v) % 2 ^ 64)
    ]
  ]

  abbrev signed_sum : Bytes → Bool → Result ℕ → Result ℤ
  signed_sum orig neg (err e) = err e
  signed_sum orig true (ok d) = ok (negated_int64 d)
  signed_sum orig false (ok d) = if ltb (2 ^ 63 - 1) d then err (invalid orig) else ok (pos d)

  abbrev unsigned : Bytes → Bool → Bytes → Result ℤ
  unsigned orig neg [] = err (invalid orig)
  unsigned orig neg (c ∷ s) =
      if bytes_eq (c ∷ s) (codes "0")
      then ok (pos 0)
      else signed_sum orig neg (sum_parts (err (invalid orig)) (suc (length s)) orig (c ∷ s) 0)

  -- `time.ParseDuration(s)`
  unfoldable pub parse_duration : Bytes → Result ℤ
  unfolding sum_parts quote_each
  parse_duration [] = err (invalid [])
  parse_duration (c ∷ s) =
      if c == b'-'
      then unsigned (c ∷ s) true s
      else if c == b'+'
      then unsigned (c ∷ s) false s
      else unsigned (c ∷ s) false (c ∷ s)
