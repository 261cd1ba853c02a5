-- ===== src/Service/Ranking/Walk.antt =====
-- Reading page after page, with the cursor that each page returns.
use feature_voting_system.Prelude.{
  ℕ, zero, suc, ◌<◌, ◌≡◌, ◌⊎◌, refl, sym, ap, ◌∙◌, inl, inr, true, List, [], ◌∷◌, ◌++◌, Option,
  none, some, Bytes, pos_part, All, All-middle, arith, ltb, Bool-cases, length, take, drop,
  take-append-drop, length-drop, take-map, length-map, split_last, map,
}
use mathlib.Core.Path.{subst}
use feature_voting_system.Database.Tables.{has_vote}
use mathlib.Core.List.{append_assoc, map-append}
use feature_voting_system.Errors.{ok}
use feature_voting_system.Database.{RequestRow, Db, Pgx, Call}
use feature_voting_system.Database.Consistency.{HasUniqueIds}
use feature_voting_system.Postgres.Requests.{
  is_readable, list_requests_by_trending, ListParams, Listing, less, filter, order_by, scan_row,
  scan_rows, Where, only, everything, where_cursor, select_where, list_requests,
}
use feature_voting_system.Postgres.Requests.Order.{
  IsDescending, order_by-IsDescending, order_by-filter,
}
use feature_voting_system.Postgres.Requests.Members.{
  order_by-HasUniqueIds, order_by-All, length-order_by, order_by-perm,
}
use mathlib.Core.List.{Perm}
use feature_voting_system.Postgres.Requests.After.{filter_after, where_cursor-row}
use feature_voting_system.Cursor.{encode_cursor}
use feature_voting_system.Service.Page.{page_limit, fetch_params, last_cursor, page_of}
use feature_voting_system.Service.Ranking.{list, postgres_ranking}
use feature_voting_system.Service.Ranking.Client.{
  listing_of, page_of-take, row_cursor, page_limit-suc, walk, HasCursor,
}

-- `cursor` stands before `rest` in the order.
abbrev IsAt : Pgx → Listing → List RequestRow → Option Bytes → List RequestRow → Type 0
IsAt pg l rows cursor rest =
    ((where_cursor pg l cursor ≡ everything) × (order_by l rows ≡ rest))
    ⊎ ((p : List RequestRow) × (x : RequestRow) × (cursor ≡ some (row_cursor pg x))
        × (order_by l rows ≡ p ++ (x ∷ rest)))

module _ (pg : Pgx) (c : Call) (viewer : ℕ) (db : Db) (sound : c.query_error ≡ none)
    (read : c.exec_error 0 ≡ none) (ids : HasUniqueIds db.requests)
    (cursors : All (HasCursor pg) db.requests) where
  -- The query at a cursor selects the rows that follow it, sorted.
  selected :
      (l : Listing) (cursor : Option Bytes) (rest : List RequestRow)
      → IsAt pg l db.requests cursor rest
      → (w : Where) × (where_cursor pg l cursor ≡ w)
        × (is_readable w ≡ true)
        × (order_by l (select_where w db.requests) ≡ rest)
  selected l cursor rest (inl (first, sorted)) = (everything, first, refl, sorted)
  selected l cursor rest (inr (p, x, named, sorted)) =
      let here =
        All-middle (HasCursor pg) p x rest
          (subst (All (HasCursor pg)) sorted (order_by-All (HasCursor pg) l db.requests cursors)) in
      let down = subst (IsDescending l) sorted (order_by-IsDescending l db.requests) in
      let unique = subst HasUniqueIds sorted (order_by-HasUniqueIds l db.requests ids) in
      (
        only (λ r. less l r x),
        ap (where_cursor pg l) named ∙ where_cursor-row pg l x here.0 here.1,
        refl,
        order_by-filter l (λ r. less l r x) db.requests
            ∙ ap (filter (λ r. less l r x)) sorted
            ∙ filter_after l p x rest down unique,
      )

  list_requests_at :
      (l : Listing) (params : ListParams) (rest : List RequestRow)
      → pg.parse_uuid params.viewer_id ≡ some viewer
      → IsAt pg l db.requests params.cursor rest
      → list_requests l pg c params db
        ≡ (ok (take (pos_part params.limit) (scan_rows pg viewer db.votes rest)), db)
  unfolding list_requests
  list_requests_at l params rest parsed at =
      let (w, is_w, readable, sorted) = selected l params.cursor rest at in
      ground (
        arith,
        is_w,
        readable,
        sorted,
        take-map (λ r. scan_row pg r (has_vote viewer r.id db.votes)) (pos_part params.limit) rest,
      )

  -- The page at a cursor holds the rows that follow it.
  list_at :
      (params : ListParams) (rest : List RequestRow)
      → pg.parse_uuid params.viewer_id ≡ some viewer
      → IsAt pg (listing_of params.sort) db.requests params.cursor rest
      → list (postgres_ranking pg c) params db
        ≡ (ok (page_of (page_limit params.limit) (scan_rows pg viewer db.votes rest)), db)
  unfolding list list_requests_by_trending
  list_at params rest parsed at =
      let xs = scan_rows pg viewer db.votes rest in
      let n = page_limit params.limit in
      let fetched =
        list_requests_at (listing_of params.sort) (fetch_params params) rest parsed at in
      ground (arith, fetched, page_of-take n xs)

  last_cursor-scan_rows :
      (p : List RequestRow) (x : RequestRow)
      → last_cursor (scan_rows pg viewer db.votes (p ++ (x ∷ []))) ≡ some (row_cursor pg x)
  unfolding encode_cursor
  last_cursor-scan_rows [] x = refl
  last_cursor-scan_rows (a ∷ []) x = refl
  last_cursor-scan_rows (a ∷ b ∷ p) x = last_cursor-scan_rows (b ∷ p) x

  -- After a full page the client stands at the rest of the rows.
  advance :
      (l : Listing) (cursor : Option Bytes) (n : ℕ) (rest : List RequestRow)
      → IsAt pg l db.requests cursor rest
      → n < length rest
      → (next : Bytes) × (last_cursor (scan_rows pg viewer db.votes (take (suc n) rest))
          ≡ some next)
        × IsAt pg l db.requests (some next) (drop (suc n) rest)
  advance l cursor n [] at more = absurd (omega arith)
  advance l cursor n (a ∷ rest) at more =
      let (p, x, split) = split_last a (take n rest) in
      let whole : a ∷ rest ≡ p ++ (x ∷ drop n rest) =
        sym (ap (a ∷◌) (take-append-drop n rest))
        ∙ ap (◌++ drop n rest) split
        ∙ append_assoc p (x ∷ []) (drop n rest) in
      (
        row_cursor pg x,
        ap (λ r. last_cursor (scan_rows pg viewer db.votes r)) split ∙ last_cursor-scan_rows p x,
        inr (elim at [
          | inl (first, sorted) ↦ (p, x, refl, sorted ∙ whole)
          | inr (q, y, named, sorted) ↦ (
            q ++ (y ∷ p),
            x,
            refl,
            sorted ∙ ap (λ r. q ++ (y ∷ r)) whole ∙ sym (append_assoc q (y ∷ p) (x ∷ drop n rest)),
          )
        ]),
      )

  -- One page, or one page and the pages after it.
  page_then_rest :
      (n : ℕ) (rest : List RequestRow)
      → take (suc n) (scan_rows pg viewer db.votes rest)
          ++ scan_rows pg viewer db.votes (drop (suc n) rest)
        ≡ scan_rows pg viewer db.votes rest
  page_then_rest n rest =
      let scan = λ (r : RequestRow). scan_row pg r (has_vote viewer r.id db.votes) in
      ap (◌++ map scan (drop (suc n) rest)) (take-map scan (suc n) rest)
      ∙ sym (map-append scan (take (suc n) rest) (drop (suc n) rest))
      ∙ ap (map scan) (take-append-drop (suc n) rest)

  walk_at :
      (f : ℕ) (params : ListParams) (rest : List RequestRow)
      → pg.parse_uuid params.viewer_id ≡ some viewer
      → IsAt pg (listing_of params.sort) db.requests params.cursor rest
      → length rest < f
      → walk (postgres_ranking pg c) f params db ≡ (ok (scan_rows pg viewer db.votes rest), db)
  unfolding walk
  walk_at zero params rest parsed at fuel = absurd (omega arith)
  walk_at (suc f) params rest parsed at fuel =
      let xs = scan_rows pg viewer db.votes rest in
      let (n, size) = page_limit-suc params.limit in
      let measured = length-map (λ r. scan_row pg r (has_vote viewer r.id db.votes)) rest in
      elim (Bool-cases (ltb (suc n) (length rest))) [
        | inl more ↦
            let (next, last, after) =
              advance (listing_of params.sort) params.cursor n rest at (ground arith) in
            let again =
              walk_at f (record params { cursor = some next }) (drop (suc n) rest) parsed after
                (ground (arith, length-drop (suc n) rest)) in
            ground (
              arith,
              list_at params rest parsed at,
              take-map (λ (r : RequestRow). scan_row pg r (has_vote viewer r.id db.votes)) (suc n)
                  rest,
              again,
              page_then_rest n rest,
            )
        | inr all ↦ ground (arith, list_at params rest parsed at)
      ]

  -- A client that starts without a cursor and follows the cursor of each page until a page has
  -- none, while nobody writes, gets every request once, and none before one that the sort puts
  -- in front of it; it needs at most one page more than there are requests. The driver reports no
  -- failure, the viewer's id is a UUID, ids are unique, and each time and each count can stand in
  -- a cursor.
  pub walk-IsDescending :
      (params : ListParams)
      → pg.parse_uuid params.viewer_id ≡ some viewer
      → params.cursor ≡ none
      → (rows : List RequestRow) × (walk
            (postgres_ranking pg c)
            (suc (length db.requests))
            params
            db
          ≡ (ok (scan_rows pg viewer db.votes rows), db))
        × Perm rows db.requests
        × IsDescending (listing_of params.sort) rows
  walk-IsDescending params parsed start =
      let l = listing_of params.sort in
      let rows = order_by l db.requests in
      (
        rows,
        walk_at (suc (length db.requests)) params rows parsed
            (inl (ap (where_cursor pg l) start, refl))
            (omega (arith, length-order_by l db.requests)),
        order_by-perm l db.requests,
        order_by-IsDescending l db.requests,
      )
