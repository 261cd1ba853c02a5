-- ===== src/Cursor.antt =====
-- The page cursor: what internal/handler/cursor.go, `encodeCursor` of internal/service/request.go
-- and `decodeCursorRaw` of internal/repository/postgres/requests.go have in common.
pub mod RoundTrip
use feature_voting_system.Prelude.{
  ℕ, ◌++◌, ◌-◌, ◌%◌, ◌^◌, List, [], ◌∷◌, Option, none, some, Bytes, ℤ, pos, negsuc, wrapped,
  if◌then◌else◌, length,
}
use feature_voting_system.Text.Decimal.{write_int, sscan_int}
use feature_voting_system.Text.Split.{split_n}
use feature_voting_system.Text.Base64
use feature_voting_system.Text.Base64.{Alphabet}

-- `UnixNano` of a time, which is its nanoseconds since 1970 without a bound.
abbrev pub unix_nano : ℤ → ℤ
unix_nano (pos n) = wrapped (n % 2 ^ 64)
unix_nano (negsuc n) = wrapped (2 ^ 64 - 1 - n % 2 ^ 64)

-- `fmt.Sprintf("%s|%d|%d", id, createdAt.UnixNano(), voteCount)`
abbrev pub cursor_text : Bytes → ℤ → ℤ → Bytes
cursor_text id created_at vote_count =
    id ++ (b'|' ∷ (write_int (unix_nano created_at) ++ (b'|' ∷ write_int vote_count)))

-- `EncodeCursor`
unfoldable pub encode_cursor : Bytes → ℤ → ℤ → Bytes
encode_cursor id created_at vote_count =
    Base64.encode Alphabet.url (cursor_text id created_at vote_count)

-- Which part of a cursor could not be read; `format` holds the number of parts.
pub data CursorError : Type 0 where
  encoding : CursorError
  format : ℕ → CursorError
  timestamp : CursorError
  count : CursorError

pub record CursorData : Type 0 where
  pub id : Bytes
  pub created_at : ℤ
  pub vote_count : ℤ

pub data Decoded : Type 0 where
  decoded : CursorData → Decoded
  refused : CursorError → Decoded

abbrev read_count : Bytes → ℤ → Option ℤ → Decoded
read_count id nanos none = refused count
read_count id nanos (some n) = decoded (record { id = id; created_at = nanos; vote_count = n })

abbrev read_nanos : Bytes → Bytes → Option ℤ → Decoded
read_nanos id third none = refused timestamp
read_nanos id third (some nanos) = read_count id nanos (sscan_int 32 third)

abbrev read_parts : List Bytes → Decoded
read_parts (id ∷ second ∷ third ∷ []) = read_nanos id third (sscan_int 64 second)
read_parts parts = refused (format (length parts))

abbrev read_raw : Option Bytes → Decoded
read_raw none = refused encoding
read_raw (some raw) = read_parts (split_n 3 b'|' raw)

-- `DecodeCursor`; `time.Unix(0, nanos)` is the time of these nanoseconds.
unfoldable pub decode_cursor : Bytes → Decoded
decode_cursor encoded = read_raw (Base64.decode Alphabet.url encoded)
