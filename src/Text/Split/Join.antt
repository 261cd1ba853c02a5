-- ===== src/Text/Split/Join.antt =====
-- The parts of a text make the text.
use feature_voting_system.Prelude.{
  ℕ, ◌≡◌, refl, sym, ap, ◌∙◌, inl, inr, List, [], ◌∷◌, ◌++◌, Bytes, arith, Bool-cases, ◌==◌, ==_iff,
}
use feature_voting_system.Text.Split.{split, longer_head}

-- `strings.Join` with a separator of one byte.
unfoldable pub join : ℕ → List Bytes → Bytes
join sep [] = []
join sep (a ∷ []) = a
join sep (a ∷ b ∷ ps) = a ++ (sep ∷ join sep (b ∷ ps))

split-cons : (sep : ℕ) (s : Bytes) → (p : Bytes) × (ps : List Bytes) × (split sep s ≡ p ∷ ps)
unfolding split
split-cons sep [] = ([], [], refl)
split-cons sep (c ∷ s) =
    let (p, ps, parts) = split-cons sep s in
    elim (Bool-cases (c == sep)) [
      | inl here ↦ ([], split sep s, ground (arith, here))
      | inr other ↦ (c ∷ p, ps, ground (arith, other, parts))
    ]

join-longer_head :
    (sep c : ℕ) (p : Bytes) (ps : List Bytes)
    → join sep (longer_head c (p ∷ ps)) ≡ c ∷ join sep (p ∷ ps)
unfolding join
join-longer_head sep c p [] = refl
join-longer_head sep c p (q ∷ ps) = refl

pub join-split : (sep : ℕ) (s : Bytes) → join sep (split sep s) ≡ s
unfolding join split
join-split sep [] = refl
join-split sep (c ∷ s) =
    let (p, ps, parts) = split-cons sep s in
    let rest : join sep (p ∷ ps) ≡ s = sym (ap (join sep) parts) ∙ join-split sep s in
    elim (Bool-cases (c == sep)) [
      | inl here ↦
          rw (here, parts) (ap (λ t. sep ∷ t) rest ∙ ap (λ b. b ∷ s) (sym ((==_iff c sep).0 here)))
      | inr other ↦ rw (other, parts) (join-longer_head sep c p ps ∙ ap (λ t. c ∷ t) rest)
    ]
