-- ===== src/Text/Space.antt =====
-- White space in UTF-8 texts: `strings.TrimSpace`, and the skipping of `fmt.Sscanf`.
use feature_voting_system.Prelude.{
  ℕ, zero, suc, Bool, ◌||◌, ◌&&◌, [], ◌∷◌, Option, none, some, Bytes, leb, ◌==◌, if◌then◌else◌,
  length,
}
use mathlib.Core.List.{reverse}

-- The ASCII white space of `unicode.IsSpace`: \t \n \v \f \r and the blank.
abbrev pub is_ascii_space : ℕ → Bool
is_ascii_space c = (leb 9 c && leb c 13) || c == 32

-- U+0085, U+00A0
abbrev pub is_space_2 : ℕ → ℕ → Bool
is_space_2 a b = a == 0xC2 && (b == 0x85 || b == 0xA0)

-- U+1680, U+2000 to U+200A, U+2028, U+2029, U+202F, U+205F, U+3000
abbrev pub is_space_3 : ℕ → ℕ → ℕ → Bool
is_space_3 a b c =
    (a == 0xE1 && b == 0x9A && c == 0x80)
    || (a == 0xE2
        && ((b == 0x80 && ((leb 0x80 c && leb c 0x8A) || c == 0xA8 || c == 0xA9 || c == 0xAF))
            || (b == 0x81 && c == 0x9F)))
    || (a == 0xE3 && b == 0x80 && c == 0x80)

-- The text without its first rune, if that is white space.
unfoldable pub drop_space : Bytes → Option Bytes
drop_space [] = none
drop_space (a ∷ []) = if is_ascii_space a then some [] else none
drop_space (a ∷ b ∷ []) =
    if is_ascii_space a then some (b ∷ []) else if is_space_2 a b then some [] else none
drop_space (a ∷ b ∷ c ∷ s) =
    if is_ascii_space a
    then some (b ∷ c ∷ s)
    else if is_space_2 a b
    then some (c ∷ s)
    else if is_space_3 a b c
    then some s
    else none

-- The same of a text that is read backwards.
unfoldable pub drop_space_back : Bytes → Option Bytes
drop_space_back [] = none
drop_space_back (a ∷ []) = if is_ascii_space a then some [] else none
drop_space_back (b ∷ a ∷ []) =
    if is_ascii_space b then some (a ∷ []) else if is_space_2 a b then some [] else none
drop_space_back (c ∷ b ∷ a ∷ s) =
    if is_ascii_space c
    then some (b ∷ a ∷ s)
    else if is_space_2 b c
    then some (a ∷ s)
    else if is_space_3 a b c
    then some s
    else none

-- Drops white space as long as there is some; each round shortens the text.
unfoldable pub drop_all : (Bytes → Option Bytes) → ℕ → Bytes → Bytes
drop_all step zero s = s
drop_all step (suc f) s = elim (step s) [ none ↦ s | some s' ↦ drop_all step f s' ]

unfoldable pub trim_space : Bytes → Bytes
unfolding drop_all drop_space drop_space_back
trim_space s =
    let left = drop_all drop_space (length s) s in
    reverse (drop_all drop_space_back (length left) (reverse left))
