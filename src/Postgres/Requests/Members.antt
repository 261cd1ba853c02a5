-- ===== src/Postgres/Requests/Members.antt =====
-- What sorting keeps: the rows, their ids and their number.
use mathlib.Core.List.{Perm}
use mathlib.Core.List.Perm
use feature_voting_system.Prelude.{
  ℕ, ◌≡◌, refl, inl, inr, false, ◌||◌, List, [], ◌∷◌, All, arith, ◌==◌, ◌∙◌, length, suc,
  Bool-cases,
}
use feature_voting_system.Database.{RequestRow}
use feature_voting_system.Database.Tables.{has_request}
use feature_voting_system.Database.Consistency.{HasUniqueIds}
use feature_voting_system.Postgres.Requests.{Listing, less, insert, order_by}

has_request-insert :
    (l : Listing) (i : ℕ) (a : RequestRow) (rs : List RequestRow)
    → has_request i (insert l a rs) ≡ (i == a.id || has_request i rs)
unfolding insert
has_request-insert l i a [] = refl
has_request-insert l i a (b ∷ rs) = ground (arith, has_request-insert l i a rs)

-- Sorting keeps the ids.
pub has_request-order_by :
    (l : Listing) (i : ℕ) (rs : List RequestRow) → has_request i (order_by l rs) ≡ has_request i rs
unfolding order_by
has_request-order_by l i [] = refl
has_request-order_by l i (a ∷ rs) =
    ground (arith, has_request-insert l i a (order_by l rs), has_request-order_by l i rs)

insert-HasUniqueIds :
    (l : Listing) (a : RequestRow) (rs : List RequestRow)
    → has_request a.id rs ≡ false
    → HasUniqueIds rs
    → HasUniqueIds (insert l a rs)
unfolding insert
insert-HasUniqueIds l a [] h k = (refl, tt)
insert-HasUniqueIds l a (b ∷ rs) h k =
    ground (arith, has_request-insert l b.id a rs, insert-HasUniqueIds l a rs)

pub order_by-HasUniqueIds :
    (l : Listing) (rs : List RequestRow) → HasUniqueIds rs → HasUniqueIds (order_by l rs)
unfolding order_by
order_by-HasUniqueIds l [] h = tt
order_by-HasUniqueIds l (a ∷ rs) h =
    insert-HasUniqueIds l a (order_by l rs) (has_request-order_by l a.id rs ∙ h.0)
      (order_by-HasUniqueIds l rs h.1)

insert-perm : (l : Listing) (a : RequestRow) (rs : List RequestRow) → Perm (insert l a rs) (a ∷ rs)
unfolding insert
insert-perm l a [] = Perm.refl (a ∷ [])
insert-perm l a (b ∷ rs) = elim (Bool-cases (less l a b)) [
  | inl before ↦ rw before (Perm.trans (Perm.cons b (insert-perm l a rs)) (Perm.swap a b rs))
  | inr other ↦ rw other (Perm.refl (a ∷ b ∷ rs))
]

-- Sorting loses and adds no row.
pub order_by-perm : (l : Listing) (rs : List RequestRow) → Perm (order_by l rs) rs
unfolding order_by
order_by-perm l [] = Perm.refl []
order_by-perm l (a ∷ rs) =
    Perm.trans (insert-perm l a (order_by l rs)) (Perm.cons a (order_by-perm l rs))

insert_any-All :
    (P : RequestRow → Type 0) (l : Listing) (a : RequestRow) (rs : List RequestRow)
    → P a
    → All P rs
    → All P (insert l a rs)
unfolding insert
insert_any-All P l a [] h k = (h, tt)
insert_any-All P l a (b ∷ rs) h k = elim (Bool-cases (less l a b)) [
  | inl before ↦ rw before (k.0, insert_any-All P l a rs h k.1)
  | inr other ↦ rw other (h, k)
]

pub order_by-All :
    (P : RequestRow → Type 0) (l : Listing) (rs : List RequestRow)
    → All P rs
    → All P (order_by l rs)
unfolding order_by
order_by-All P l [] h = tt
order_by-All P l (a ∷ rs) h = insert_any-All P l a (order_by l rs) h.0 (order_by-All P l rs h.1)

length-insert :
    (l : Listing) (a : RequestRow) (rs : List RequestRow) → length (insert l a rs) ≡ suc (length rs)
unfolding insert
length-insert l a [] = refl
length-insert l a (b ∷ rs) = ground (arith, length-insert l a rs)

pub length-order_by : (l : Listing) (rs : List RequestRow) → length (order_by l rs) ≡ length rs
unfolding order_by
length-order_by l [] = refl
length-order_by l (a ∷ rs) = ground (arith, length-insert l a (order_by l rs), length-order_by l rs)
