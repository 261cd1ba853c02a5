-- ===== src/Tests/Routing/Sound.antt =====
-- What the router of single requests finds is a route, or it answers 404 or 405.
use mathlib.Core.List.{Memᴰ}
use feature_voting_system.Prelude.{
  ◌≡◌, refl, sym, ap, ◌∙◌, ◌⊎◌, inl, inr, Bool, true, ◌&&◌, List, [], ◌∷◌, ◌++◌, some, Bytes, codes,
  arith, Bool-cases, bytes_eq, bytes_eq_iff,
}
use feature_voting_system.Text.Split.Join.{join}
use feature_voting_system.Http.{Response, Body}
use feature_voting_system.Server.Router.{
  Endpoint, with_id, Route, protected_routes, path_of, found, refused,
}
use feature_voting_system.Server.Router.Guarded.{routes, Takes}
use feature_voting_system.Tests.Routing.{by_parts, under_requests}

-- What the parts of a path that was routed say of it.
abbrev pub IsRouted : Bytes → List Bytes → Endpoint → Bytes → Type 0
IsRouted m parts e id =
    (route : Route) × Memᴰ route routes
    × (route.endpoint ≡ e)
    × Takes route m
    × (join b'/' parts ≡ path_of route.pattern id)

-- The place of a protected route.
listed : {route : Route} → Memᴰ route protected_routes → Memᴰ route routes
listed m = Memᴰ.tail (Memᴰ.tail (Memᴰ.tail (Memᴰ.tail (Memᴰ.tail (Memᴰ.tail (Memᴰ.tail m))))))

pub append-nil : (s : Bytes) → s ≡ s ++ []
append-nil [] = refl
append-nil (c ∷ s) = ap (λ t. c ∷ t) (append-nil s)

both_true : (a b : Bool) → (a && b) ≡ true → (a ≡ true) × (b ≡ true)
both_true a b h = ground arith

under : (a b : Bytes) → under_requests a b ≡ true → (a ≡ []) × (b ≡ codes "requests")
under a b h =
    let (left, right) = both_true (bytes_eq a (codes "")) (bytes_eq b (codes "requests")) h in
    ((bytes_eq_iff a (codes "")).0 left, (bytes_eq_iff b (codes "requests")).0 right)

found_inj : {e e' : Endpoint} {id id' : Bytes} → found e id ≡ found e' id' → (e ≡ e') × (id ≡ id')
found_inj h = (cc, cc)

-- The path of three or four parts that a route of `protected_routes` has.
routed :
    (m a b c : Bytes) (rest : List Bytes) (after : Bytes) (e : Endpoint) (e' : Endpoint)
    (id method : Bytes)
    → Memᴰ
        (record {
          method = some method;
          pattern = with_id (codes "/requests/") after;
          endpoint = e';
        })
        protected_routes
    → under_requests a b ≡ true
    → bytes_eq m method ≡ true
    → found e' c ≡ found e id
    → join b'/' (c ∷ rest) ≡ c ++ after
    → IsRouted m (a ∷ b ∷ c ∷ rest) e id
unfolding join
routed m a b c rest after e e' id method place here same to shape =
    let (empty, requests) = under a b here in
    let (endpoint, third) = found_inj to in
    (
      _,
      listed place,
      endpoint,
      inr (ap some (sym ((bytes_eq_iff m method).0 same))),
      rw (empty, requests) (ap (λ t. codes "/requests/" ++ t) (shape ∙ ap (λ v. v ++ after) third)),
    )

pub by_parts-IsRouted :
    (m : Bytes) (parts : List Bytes) (e : Endpoint) (id : Bytes)
    → by_parts m parts ≡ found e id
    → IsRouted m parts e id
unfolding by_parts join
by_parts-IsRouted m [] e id h = cc
by_parts-IsRouted m (a ∷ []) e id h = cc
by_parts-IsRouted m (a ∷ b ∷ []) e id h = cc
by_parts-IsRouted m (a ∷ b ∷ c ∷ []) e id h =
    elim (Bool-cases (under_requests a b && bytes_eq m (codes "GET"))) [
      | inr other ↦ absurd (cc)
      | inl all ↦
          let (place, same) = both_true (under_requests a b) (bytes_eq m (codes "GET")) all in
          routed m a b c [] [] e Endpoint.get_by_id id (codes "GET")
            (Memᴰ.tail (Memᴰ.tail (Memᴰ.head refl))) place same (rw all at h) (append-nil c)
    ]
by_parts-IsRouted m (a ∷ b ∷ c ∷ d ∷ []) e id h =
    elim (Bool-cases (under_requests a b && bytes_eq d (codes "vote"))) [
      | inr other ↦ absurd (cc)
      | inl all ↦
          let (place, last) = both_true (under_requests a b) (bytes_eq d (codes "vote")) all in
          let shape : join b'/' (c ∷ d ∷ []) ≡ c ++ codes "/vote" =
            ap (λ t. c ++ (b'/' ∷ t)) ((bytes_eq_iff d (codes "vote")).0 last) in
          elim (Bool-cases (bytes_eq m (codes "PUT"))) [
            | inl put ↦
                routed m a b c (d ∷ []) (codes "/vote") e Endpoint.upvote id (codes "PUT")
                  (Memᴰ.tail (Memᴰ.tail (Memᴰ.tail (Memᴰ.head refl)))) place put
                  (rw (all, put) at h) shape
            | inr no_put ↦ elim (Bool-cases (bytes_eq m (codes "DELETE"))) [
              | inl delete ↦
                  routed m a b c (d ∷ []) (codes "/vote") e Endpoint.remove_vote id (codes "DELETE")
                    (Memᴰ.tail (Memᴰ.tail (Memᴰ.tail (Memᴰ.tail (Memᴰ.head refl))))) place delete
                    (rw (all, no_put, delete) at h) shape
              | inr no_delete ↦ absurd (cc)
            ]
          ]
    ]
by_parts-IsRouted m (a ∷ b ∷ c ∷ d ∷ x ∷ parts) e id h = cc

pub by_parts-refused :
    (m : Bytes) (parts : List Bytes) (out : Response (Body Bytes))
    → by_parts m parts ≡ refused out
    → (out.status ≡ 404) ⊎ (out.status ≡ 405)
unfolding by_parts
by_parts-refused m [] out h = inl (ground arith)
by_parts-refused m (a ∷ []) out h = inl (ground arith)
by_parts-refused m (a ∷ b ∷ []) out h = inl (ground arith)
by_parts-refused m (a ∷ b ∷ c ∷ []) out h = inl (ground arith)
by_parts-refused m (a ∷ b ∷ c ∷ d ∷ []) out h = ground arith
by_parts-refused m (a ∷ b ∷ c ∷ d ∷ x ∷ parts) out h = inl (ground arith)
