-- ===== src/Tests/Routing.antt =====
-- A router that knows the routes of single requests.
pub mod Sound
pub mod Complete
use mathlib.Core.List.{Memᴰ}
use mathlib.Core.Option.{some-injective}
use mathlib.Core.Path.{subst}
use feature_voting_system.Prelude.{
  ◌≡◌, refl, sym, ap, ◌∙◌, ◌⊎◌, inl, inr, Bool, true, ◌&&◌, List, [], ◌∷◌, ◌++◌, some, Bytes, codes,
  arith, All, All-append, Bool-cases, bytes_eq, bytes_eq_iff, if◌then◌else◌,
}
use feature_voting_system.Text.Split.{split, split-append, split-Lacks}
use feature_voting_system.Text.Split.Join.{join, join-split}
use feature_voting_system.Http.{Response, Body, http_error}
use feature_voting_system.Server.Router.{
  Endpoint, static, with_id, Route, open_routes, protected_routes, path_of, Found, found, refused,
  Mux,
}
use feature_voting_system.Server.Router.Guarded.{routes, IsSegment, Takes, MuxLaws, All-Mem}

abbrev not_found : Found
not_found = refused (http_error (codes "404 page not found") 404)

abbrev not_allowed : Found
not_allowed = refused (http_error (codes "") 405)

abbrev pub under_requests : Bytes → Bytes → Bool
under_requests a b = bytes_eq a (codes "") && bytes_eq b (codes "requests")

unfoldable pub by_parts : Bytes → List Bytes → Found
by_parts m (a ∷ b ∷ c ∷ []) =
    if under_requests a b && bytes_eq m (codes "GET") then found Endpoint.get_by_id c else not_found
by_parts m (a ∷ b ∷ c ∷ d ∷ []) =
    if under_requests a b && bytes_eq d (codes "vote")
    then if bytes_eq m (codes "PUT")
      then found Endpoint.upvote c
      else if bytes_eq m (codes "DELETE")
      then found Endpoint.remove_vote c
      else not_allowed
    else not_found
by_parts m parts = not_found

unfoldable pub requests_mux : Mux
unfolding by_parts split
requests_mux m p = by_parts m (split b'/' p)
