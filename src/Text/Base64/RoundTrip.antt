-- ===== src/Text/Base64/RoundTrip.antt =====
-- Decoding undoes encoding, on every text of bytes.
use feature_voting_system.Prelude.{
  ℕ, ◌+◌, ◌*◌, ◌/◌, ◌%◌, ◌<◌, ◌≡◌, refl, false, [], ◌∷◌, some, Bytes, AreBytes, All, bytes_eq,
  arith, ◌≤◌,
}
use feature_voting_system.Text.Base64.{
  Alphabet, write_symbol, read_symbol, encode, drop_line_ends, decode_symbols, decode,
}

read-write_symbol : (al : Alphabet) (v : ℕ) → v < 64 → read_symbol al (write_symbol al v) ≡ some v
unfolding write_symbol read_symbol
read-write_symbol Alphabet.url v h = ground arith
read-write_symbol Alphabet.std v h = ground arith

-- No symbol is a line end.
write_symbol-ge : (al : Alphabet) (v : ℕ) → v < 64 → 43 ≤ write_symbol al v
unfolding write_symbol
write_symbol-ge Alphabet.url v h = ground arith
write_symbol-ge Alphabet.std v h = ground arith

pub encode-ge : (al : Alphabet) (s : Bytes) → AreBytes s → All (λ c. 43 ≤ c) (encode al s)
unfolding encode
encode-ge al [] h = tt
encode-ge al (a ∷ []) h =
    (write_symbol-ge al (a / 4) (omega arith), (write_symbol-ge al (a % 4 * 16) (omega arith), tt))
encode-ge al (a ∷ b ∷ []) h = (
  write_symbol-ge al (a / 4) (omega arith),
  (
    write_symbol-ge al (a % 4 * 16 + b / 16) (omega arith),
    (write_symbol-ge al (b % 16 * 4) (omega arith), tt),
  ),
)
encode-ge al (a ∷ b ∷ c ∷ s) h = (
  write_symbol-ge al (a / 4) (omega arith),
  (
    write_symbol-ge al (a % 4 * 16 + b / 16) (omega arith),
    (
      write_symbol-ge al (b % 16 * 4 + c / 64) (omega arith),
      (write_symbol-ge al (c % 64) (omega arith), encode-ge al s h.1.1.1),
    ),
  ),
)

drop_line_ends-ge : (s : Bytes) → All (λ c. 43 ≤ c) s → drop_line_ends s ≡ s
unfolding drop_line_ends
drop_line_ends-ge [] h = refl
drop_line_ends-ge (c ∷ s) h = ground (arith, drop_line_ends-ge s h.1)

decode-encode_symbols :
    (al : Alphabet) (s : Bytes) → AreBytes s → decode_symbols al (encode al s) ≡ some s
unfolding encode decode_symbols
decode-encode_symbols al [] h = refl
decode-encode_symbols al (a ∷ []) h =
    rw (read-write_symbol al (a / 4) (omega arith), read-write_symbol al (a % 4 * 16) (omega arith))
      (ground arith)
decode-encode_symbols al (a ∷ b ∷ []) h =
    rw
      (
        read-write_symbol al (a / 4) (omega arith),
        read-write_symbol al (a % 4 * 16 + b / 16) (omega arith),
        read-write_symbol al (b % 16 * 4) (omega arith),
      )
      (ground arith)
decode-encode_symbols al (a ∷ b ∷ c ∷ s) h =
    rw
      (
        read-write_symbol al (a / 4) (omega arith),
        read-write_symbol al (a % 4 * 16 + b / 16) (omega arith),
        read-write_symbol al (b % 16 * 4 + c / 64) (omega arith),
        read-write_symbol al (c % 64) (omega arith),
        decode-encode_symbols al s h.1.1.1,
      )
      (ground arith)

-- Decoding undoes encoding, for either alphabet and every text of bytes.
pub decode-encode : (al : Alphabet) (s : Bytes) → AreBytes s → decode al (encode al s) ≡ some s
unfolding decode
decode-encode al s h =
    rw (drop_line_ends-ge (encode al s) (encode-ge al s h)) (decode-encode_symbols al s h)

pub encode-ne-nil : (al : Alphabet) (c : ℕ) (s : Bytes) → bytes_eq (encode al (c ∷ s)) [] ≡ false
unfolding encode bytes_eq
encode-ne-nil al a [] = refl
encode-ne-nil al a (b ∷ []) = refl
encode-ne-nil al a (b ∷ c ∷ s) = refl
