-- ===== src/Text/Split.antt =====
-- `strings.Split` and `strings.SplitN` at a separator of one byte.
pub mod Join
use feature_voting_system.Prelude.{
  ℕ, zero, suc, ◌≡◌, refl, false, List, [], ◌∷◌, ◌++◌, Option, none, some, Bytes, ◌==◌,
  if◌then◌else◌, All, arith, sym, ap, inl, inr, Bool-cases, Option-cases,
}
use mathlib.Core.Option

-- The text before the first separator, and the text behind it.
unfoldable pub cut_at : ℕ → Bytes → Option (Bytes × Bytes)
cut_at sep [] = none
cut_at sep (c ∷ s) =
    let later = Option.map (λ (p : Bytes × Bytes). (c ∷ p.0, p.1)) (cut_at sep s) in
    if c == sep then some ([], s) else later

-- `strings.SplitN(s, sep, n)` for an n that is positive.
unfoldable pub split_n : ℕ → ℕ → Bytes → List Bytes
unfolding cut_at
split_n zero sep s = []
split_n (suc zero) sep s = s ∷ []
split_n (suc (suc n)) sep s = elim (cut_at sep s) [
  | none ↦ s ∷ []
  | some (a, b) ↦ a ∷ split_n (suc n) sep b
]

abbrev pub longer_head : ℕ → List Bytes → List Bytes
longer_head c [] = []
longer_head c (p ∷ ps) = (c ∷ p) ∷ ps

-- `strings.Split(s, sep)`
unfoldable pub split : ℕ → Bytes → List Bytes
split sep [] = [] ∷ []
split sep (c ∷ s) = let parts = split sep s in if c == sep then [] ∷ parts else longer_head c parts

-- The separator does not stand in the text.
abbrev pub Lacks : ℕ → Bytes → Type 0
Lacks sep = All (λ c. (c == sep) ≡ false)

some_pair : {x y : Bytes × Bytes} → some x ≡ some y → (x.0 ≡ y.0) × (x.1 ≡ y.1)
some_pair h = (cc, cc)

pub cut_at-append :
    (sep : ℕ) (p q : Bytes) → Lacks sep p → cut_at sep (p ++ (sep ∷ q)) ≡ some (p, q)
unfolding cut_at
cut_at-append sep [] q h = ground arith
cut_at-append sep (c ∷ p) q h = ground (arith, cut_at-append sep p q h.1)

pub cut_at-Lacks : (sep : ℕ) (p : Bytes) → Lacks sep p → cut_at sep p ≡ none
unfolding cut_at
cut_at-Lacks sep [] h = refl
cut_at-Lacks sep (c ∷ p) h = ground (arith, cut_at-Lacks sep p h.1)

-- What stands around the first separator.
pub cut_at-some :
    (sep : ℕ) (s p q : Bytes) → cut_at sep s ≡ some (p, q) → (s ≡ p ++ (sep ∷ q)) × Lacks sep p
unfolding cut_at
cut_at-some sep [] p q h = cc
cut_at-some sep (c ∷ s) p q h = elim (Bool-cases (c == sep)) [
  | inl here ↦
      let (first, rest) = some_pair {x = ([], s)} {y = (p, q)} (rw here at h) in
      rw (sym first, sym rest) (ap (λ x. x ∷ s) (ground (arith, here)), tt)
  | inr other ↦ elim (Option-cases (cut_at sep s)) [
    | inl whole ↦ absurd (cc)
    | inr ((a, b), parts) ↦
        let (first, rest) = some_pair {x = (c ∷ a, b)} {y = (p, q)} (rw (other, parts) at h) in
        let (before, lacks) = cut_at-some sep s a b parts in
        rw (sym first, sym rest) (ap (λ x. c ∷ x) before, (other, lacks))
  ]
]

-- A join of texts without the separator falls into its parts.
pub split-append :
    (sep : ℕ) (p q : Bytes) → Lacks sep p → split sep (p ++ (sep ∷ q)) ≡ p ∷ split sep q
unfolding split
split-append sep [] q h = ground arith
split-append sep (c ∷ p) q h = rw (h.0, split-append sep p q h.1)

pub split-Lacks : (sep : ℕ) (p : Bytes) → Lacks sep p → split sep p ≡ p ∷ []
unfolding split
split-Lacks sep [] h = refl
split-Lacks sep (c ∷ p) h = rw (h.0, split-Lacks sep p h.1)
