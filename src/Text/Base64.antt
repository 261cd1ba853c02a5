-- ===== src/Text/Base64.antt =====
-- `base64.RawURLEncoding` and `base64.RawStdEncoding` of encoding/base64.
pub mod RoundTrip
use feature_voting_system.Prelude.{
  ℕ, ◌+◌, ◌-◌, ◌*◌, ◌/◌, ◌%◌, Bool, ◌&&◌, ◌||◌, [], ◌∷◌, Option, none, some, Bytes, codes, ltb, leb,
  ◌==◌, if◌then◌else◌, ◌≡◌, refl,
}

pub data Alphabet : Type 0 where
  url std : Alphabet

abbrev pub symbol_62 : Alphabet → ℕ
symbol_62 Alphabet.url = b'-'
symbol_62 Alphabet.std = b'+'

abbrev pub symbol_63 : Alphabet → ℕ
symbol_63 Alphabet.url = b'_'
symbol_63 Alphabet.std = b'/'

-- The symbol of a number below 64.
write_symbol : Alphabet → ℕ → ℕ
write_symbol a v =
    if ltb v 26
    then b'A' + v
    else if ltb v 52
    then b'a' + (v - 26)
    else if ltb v 62
    then b'0' + (v - 52)
    else if v == 62
    then symbol_62 a
    else symbol_63 a

read_symbol : Alphabet → ℕ → Option ℕ
read_symbol a c =
    if leb b'A' c && leb c b'Z'
    then some (c - b'A')
    else if leb b'a' c && leb c b'z'
    then some (c - b'a' + 26)
    else if leb b'0' c && leb c b'9'
    then some (c - b'0' + 52)
    else if c == symbol_62 a
    then some 62
    else if c == symbol_63 a
    then some 63
    else none

-- `EncodeToString`: three bytes make four symbols, and no padding ends the text.
pub encode : Alphabet → Bytes → Bytes
encode al [] = []
encode al (a ∷ []) = write_symbol al (a / 4) ∷ write_symbol al (a % 4 * 16) ∷ []
encode al (a ∷ b ∷ []) =
    write_symbol al (a / 4)
    ∷ write_symbol al (a % 4 * 16 + b / 16)
    ∷ write_symbol al (b % 16 * 4)
    ∷ []
encode al (a ∷ b ∷ c ∷ s) =
    write_symbol al (a / 4)
    ∷ write_symbol al (a % 4 * 16 + b / 16)
    ∷ write_symbol al (b % 16 * 4 + c / 64)
    ∷ write_symbol al (c % 64)
    ∷ encode al s

-- The decoder passes over line ends.
drop_line_ends : Bytes → Bytes
drop_line_ends [] = []
drop_line_ends (c ∷ s) =
    let rest = drop_line_ends s in if c == 10 || c == 13 then rest else c ∷ rest

infixl 5 ◌>>=◌
abbrev ◌>>=◌ : {A B : Type 0} → Option A → (A → Option B) → Option B
none >>= f = none
some a >>= f = f a

-- Four symbols make three bytes; two or three may stand at the end, one may not. The bits that are
-- left over are not looked at.
decode_symbols : Alphabet → Bytes → Option Bytes
decode_symbols al [] = some []
decode_symbols al (w ∷ []) = none
decode_symbols al (w ∷ x ∷ []) = do
  v ← read_symbol al w
  u ← read_symbol al x
  some ((v * 4 + u / 16) ∷ [])
decode_symbols al (w ∷ x ∷ y ∷ []) = do
  v ← read_symbol al w
  u ← read_symbol al x
  t ← read_symbol al y
  some ((v * 4 + u / 16) ∷ (u % 16 * 16 + t / 4) ∷ [])
decode_symbols al (w ∷ x ∷ y ∷ z ∷ s) = do
  v ← read_symbol al w
  u ← read_symbol al x
  t ← read_symbol al y
  r ← read_symbol al z
  rest ← decode_symbols al s
  some ((v * 4 + u / 16) ∷ (u % 16 * 16 + t / 4) ∷ (t % 4 * 64 + r) ∷ rest)

-- `DecodeString`; nothing where it returns an error.
pub decode : Alphabet → Bytes → Option Bytes
unfolding drop_line_ends decode_symbols
decode al s = decode_symbols al (drop_line_ends s)

known : encode Alphabet.url (codes "a|1|2") ≡ codes "YXwxfDI"
unfolding encode write_symbol
known = refl

known_back : decode Alphabet.url (codes "YXwx\nfDI") ≡ some (codes "a|1|2")
unfolding decode read_symbol
known_back = refl

padded : decode Alphabet.std (codes "YQ==") ≡ none
unfolding decode read_symbol
padded = refl
