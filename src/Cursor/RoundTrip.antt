-- ===== src/Cursor/RoundTrip.antt =====
-- A cursor is read back as it was written.
use feature_voting_system.Prelude.{
  ◌++◌, ◌≡◌, ◌<◌, [], ◌∷◌, Bytes, ℤ, pos, negsuc, true, arith, AreBytes, bytes_eq, All-append,
  All-map, IsInt32, IsInt64, ◌==◌, false,
}
use feature_voting_system.Text.Decimal.{fits, write_int}
use feature_voting_system.Text.Decimal.RoundTrip.{sscan-write, write_int-IsPlain, IsPlain}
use feature_voting_system.Text.Split.{Lacks, split_n, cut_at-append}
use feature_voting_system.Text.Base64.{Alphabet}
use feature_voting_system.Text.Base64.RoundTrip.{decode-encode, encode-ne-nil}
use feature_voting_system.Cursor.{unix_nano, cursor_text, encode_cursor, decoded, decode_cursor}

unix_nano-eq : (t : ℤ) → IsInt64 t → unix_nano t ≡ t
unix_nano-eq (pos n) h = ground arith
unix_nano-eq (negsuc n) h = ground arith

write_int-Lacks : (z : ℤ) → Lacks b'|' (write_int z)
write_int-Lacks z =
    All-map IsPlain (λ c. (c == b'|') ≡ false) (write_int z) (λ c h. ground arith)
      (write_int-IsPlain z)

write_int-AreBytes : (z : ℤ) → AreBytes (write_int z)
write_int-AreBytes z =
    All-map IsPlain (λ c. c < 256) (write_int z) (λ c h. omega arith) (write_int-IsPlain z)

cursor_text-AreBytes : (id : Bytes) (t n : ℤ) → AreBytes id → AreBytes (cursor_text id t n)
cursor_text-AreBytes id t n h =
    All-append (λ c. c < 256) id _ h
      (
        omega arith,
        All-append (λ c. c < 256) (write_int (unix_nano t)) _ (write_int-AreBytes (unix_nano t))
            (omega arith, write_int-AreBytes n),
      )

fits_64 : (t : ℤ) → IsInt64 t → fits 64 t ≡ true
fits_64 t h = ground arith

split-cursor :
    (id : Bytes) (t n : ℤ)
    → Lacks b'|' id
    → split_n 3 b'|' (id ++ (b'|' ∷ (write_int t ++ (b'|' ∷ write_int n))))
      ≡ id ∷ write_int t ∷ write_int n ∷ []
unfolding split_n
split-cursor id t n clean = ground (
  arith,
  cut_at-append b'|' id (write_int t ++ (b'|' ∷ write_int n)) clean,
  cut_at-append b'|' (write_int t) (write_int n) (write_int-Lacks t),
)

-- The cursor of an id of bytes without a bar, a time in the years of `UnixNano` and a 32-bit
-- count is read back as those three.
pub decode-encode_cursor :
    (id : Bytes) (t n : ℤ)
    → AreBytes id
    → Lacks b'|' id
    → IsInt64 t
    → IsInt32 n
    → decode_cursor (encode_cursor id t n)
      ≡ decoded (record { id = id; created_at = t; vote_count = n })
unfolding decode_cursor encode_cursor
decode-encode_cursor id t n bytes clean wide narrow = rw (
  decode-encode Alphabet.url (cursor_text id t n) (cursor_text-AreBytes id t n bytes),
  unix_nano-eq t wide,
  split-cursor id t n clean,
  sscan-write 64 t (fits_64 t wide) (fits_64 t wide),
  sscan-write 32 n (ground arith) (ground arith),
)

-- A cursor is never the empty text, which the listings take for none.
pub encode_cursor-ne-nil : (id : Bytes) (t n : ℤ) → bytes_eq (encode_cursor id t n) [] ≡ false
unfolding encode_cursor bytes_eq
encode_cursor-ne-nil [] t n = encode-ne-nil Alphabet.url _ _
encode_cursor-ne-nil (c ∷ id) t n = encode-ne-nil Alphabet.url _ _
