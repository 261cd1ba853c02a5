-- ===== src/Postgres/Requests/Order.antt =====
-- The orders of the listings, and what sorting does.
use feature_voting_system.Prelude.{
  ◌≡◌, refl, inl, inr, Bool, true, false, ◌||◌, ◌&&◌, ℤ, ltb_ℤ, eqb_ℤ, List, [], ◌∷◌, All, arith,
  All-map, Bool-cases,
}
use feature_voting_system.Database.{RequestRow}
use feature_voting_system.Postgres.Requests.{Listing, less, filter, insert, order_by}

pub less_asymm : (l : Listing) (a b : RequestRow) → less l a b ≡ true → less l b a ≡ false
less_asymm Listing.new a b h = ground arith
less_asymm Listing.top a b h = ground arith

-- The same of a comparison by a count first, and by another one where the counts are equal.
counted_weak_trans :
    (n m k : ℤ) (x y z : Bool)
    → (x ≡ false → y ≡ false → z ≡ false)
    → (ltb_ℤ n m || (eqb_ℤ n m && x)) ≡ false
    → (ltb_ℤ m k || (eqb_ℤ m k && y)) ≡ false
    → (ltb_ℤ n k || (eqb_ℤ n k && z)) ≡ false
counted_weak_trans n m k true y z h p q = ground arith
counted_weak_trans n m k false true z h p q = ground arith
counted_weak_trans n m k false false z h p q = rw (h refl refl) (ground arith)

new_weak_trans :
    (a b c : RequestRow)
    → less Listing.new a b ≡ false
    → less Listing.new b c ≡ false
    → less Listing.new a c ≡ false
new_weak_trans a b c h k = ground arith

less_weak_trans :
    (l : Listing) (a b c : RequestRow)
    → less l a b ≡ false
    → less l b c ≡ false
    → less l a c ≡ false
less_weak_trans Listing.new a b c h k = new_weak_trans a b c h k
less_weak_trans Listing.top a b c h k =
    counted_weak_trans a.vote_count b.vote_count c.vote_count _ _ _ (new_weak_trans a b c) h k

-- Two rows that neither is before the other have one id.
pub less_total :
    (l : Listing) (a b : RequestRow) → less l a b ≡ false → less l b a ≡ false → a.id ≡ b.id
less_total Listing.new a b h k = ground arith
less_total Listing.top a b h k = ground arith

-- Sorted downwards: no row is before one that follows it.
abbrev pub IsDescending : Listing → List RequestRow → Type 0
IsDescending l [] = Unit
IsDescending l (a ∷ rs) = All (λ b. less l a b ≡ false) rs × IsDescending l rs

insert-All :
    (l : Listing) (a x : RequestRow) (rs : List RequestRow)
    → less l x a ≡ false
    → All (λ b. less l x b ≡ false) rs
    → All (λ b. less l x b ≡ false) (insert l a rs)
unfolding insert
insert-All l a x [] h k = (h, tt)
insert-All l a x (b ∷ rs) h k = elim (Bool-cases (less l a b)) [
  | inl before ↦ rw before (k.0, insert-All l a x rs h k.1)
  | inr other ↦ rw other (h, k)
]

above-All :
    (l : Listing) (a b : RequestRow) (rs : List RequestRow)
    → less l a b ≡ false
    → All (λ c. less l b c ≡ false) rs
    → All (λ c. less l a c ≡ false) rs
above-All l a b rs h k =
    All-map (λ c. less l b c ≡ false) (λ c. less l a c ≡ false) rs
      (λ c q. less_weak_trans l a b c h q) k

insert-IsDescending :
    (l : Listing) (a : RequestRow) (rs : List RequestRow)
    → IsDescending l rs
    → IsDescending l (insert l a rs)
unfolding insert
insert-IsDescending l a [] h = (tt, tt)
insert-IsDescending l a (b ∷ rs) h = elim (Bool-cases (less l a b)) [
  | inl before ↦
      rw before (insert-All l a b rs (less_asymm l a b before) h.0, insert-IsDescending l a rs h.1)
  | inr other ↦ rw other ((other, above-All l a b rs other h.0), h)
]

pub order_by-IsDescending : (l : Listing) (rs : List RequestRow) → IsDescending l (order_by l rs)
unfolding order_by
order_by-IsDescending l [] = tt
order_by-IsDescending l (a ∷ rs) =
    insert-IsDescending l a (order_by l rs) (order_by-IsDescending l rs)

-- A row that no member is above goes to the front.
insert_front :
    (l : Listing) (a : RequestRow) (rs : List RequestRow)
    → All (λ b. less l a b ≡ false) rs
    → insert l a rs ≡ a ∷ rs
unfolding insert
insert_front l a [] h = refl
insert_front l a (b ∷ rs) h = rw (h.0)

pub filter-All :
    (P : RequestRow → Type 0) (p : RequestRow → Bool) (rs : List RequestRow)
    → All P rs
    → All P (filter p rs)
unfolding filter
filter-All P p [] h = tt
filter-All P p (b ∷ rs) h = elim (Bool-cases (p b)) [
  | inl kept ↦ rw kept (h.0, filter-All P p rs h.1)
  | inr dropped ↦ rw dropped (filter-All P p rs h.1)
]

filter-insert_kept :
    (l : Listing) (p : RequestRow → Bool) (a : RequestRow) (rs : List RequestRow)
    → IsDescending l rs
    → p a ≡ true
    → filter p (insert l a rs) ≡ insert l a (filter p rs)
unfolding filter insert
filter-insert_kept l p a [] h k = rw k
filter-insert_kept l p a (b ∷ rs) h k = elim (Bool-cases (less l a b)) [
  | inl before ↦ ground (arith, filter-insert_kept l p a rs h.1 k)
  | inr other ↦ ground (
    arith,
    insert_front l a (filter p rs)
        (filter-All (λ c. less l a c ≡ false) p rs (above-All l a b rs other h.0)),
  )
]

filter-insert_dropped :
    (l : Listing) (p : RequestRow → Bool) (a : RequestRow) (rs : List RequestRow)
    → p a ≡ false
    → filter p (insert l a rs) ≡ filter p rs
unfolding filter insert
filter-insert_dropped l p a [] k = rw k
filter-insert_dropped l p a (b ∷ rs) k = ground (arith, filter-insert_dropped l p a rs k)

-- `WHERE` and `ORDER BY` commute.
pub order_by-filter :
    (l : Listing) (p : RequestRow → Bool) (rs : List RequestRow)
    → order_by l (filter p rs) ≡ filter p (order_by l rs)
unfolding filter order_by
order_by-filter l p [] = refl
order_by-filter l p (a ∷ rs) = elim (Bool-cases (p a)) [
  | inl kept ↦ ground (
    arith,
    order_by-filter l p rs,
    filter-insert_kept l p a (order_by l rs) (order_by-IsDescending l rs) kept,
  )
  | inr dropped ↦
      ground (arith, order_by-filter l p rs, filter-insert_dropped l p a (order_by l rs) dropped)
]
