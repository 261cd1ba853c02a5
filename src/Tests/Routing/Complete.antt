-- ===== src/Tests/Routing/Complete.antt =====
-- The router of single requests finds every path of a route.
use mathlib.Core.Option.{some-injective}
use mathlib.Core.Path.{subst}
use feature_voting_system.Prelude.{
  ◌≡◌, refl, sym, ap, ◌∙◌, [], ◌∷◌, ◌++◌, some, Bytes, codes, All, All-append, bytes_eq,
}
use feature_voting_system.Text.Split.{split, split-append, split-Lacks}
use feature_voting_system.Text.Split.Join.{join-split}
use feature_voting_system.Server.Router.{
  Endpoint, static, with_id, Route, open_routes, protected_routes, path_of, found,
}
use feature_voting_system.Server.Router.Guarded.{routes, IsSegment, MuxLaws, All-Mem}
use feature_voting_system.Tests.Routing.{by_parts, requests_mux}
use feature_voting_system.Tests.Routing.Sound.{append-nil, by_parts-IsRouted, by_parts-refused}

-- Each path of a route is found.
abbrev IsFound : Route → Type 0
IsFound route =
    (method before after id : Bytes)
    → route.method ≡ some method
    → route.pattern ≡ with_id before after
    → IsSegment id
    → requests_mux method (path_of route.pattern id) ≡ found route.endpoint id

not_static : {path before after : Bytes} {A : Type 0} → static path ≡ with_id before after → A
not_static e = absurd (cc)

static-IsFound : (route : Route) (path : Bytes) → route.pattern ≡ static path → IsFound route
static-IsFound route path shape method before after id _ same segment =
    not_static (sym shape ∙ same)

requests_path :
    (rest : Bytes)
    → split b'/' (codes "/requests/" ++ rest) ≡ [] ∷ codes "requests" ∷ split b'/' rest
unfolding split
requests_path rest = refl

plain_path :
    (id : Bytes)
    → IsSegment id
    → split b'/' (codes "/requests/" ++ (id ++ [])) ≡ [] ∷ codes "requests" ∷ id ∷ []
plain_path id segment =
    requests_path (id ++ [])
    ∙ ap (λ ps. [] ∷ codes "requests" ∷ ps)
        (ap (split b'/') (sym (append-nil id)) ∙ split-Lacks b'/' id segment.1)

vote_path :
    (id : Bytes)
    → IsSegment id
    → split b'/' (codes "/requests/" ++ (id ++ codes "/vote"))
      ≡ [] ∷ codes "requests" ∷ id ∷ codes "vote" ∷ []
vote_path id segment =
    requests_path (id ++ codes "/vote")
    ∙ ap (λ ps. [] ∷ codes "requests" ∷ ps)
        (split-append b'/' id (codes "vote") segment.1 ∙ ap (λ ps. id ∷ ps) one_part)
  where
    one_part : split b'/' (codes "vote") ≡ codes "vote" ∷ []
    one_part = unfold split in refl

find_plain :
    (id : Bytes)
    → IsSegment id
    → requests_mux (codes "GET") (codes "/requests/" ++ (id ++ [])) ≡ found Endpoint.get_by_id id
unfolding requests_mux by_parts bytes_eq
find_plain id segment = ap (by_parts (codes "GET")) (plain_path id segment)

find_put :
    (id : Bytes)
    → IsSegment id
    → requests_mux (codes "PUT") (codes "/requests/" ++ (id ++ codes "/vote"))
      ≡ found Endpoint.upvote id
unfolding requests_mux by_parts bytes_eq
find_put id segment = ap (by_parts (codes "PUT")) (vote_path id segment)

find_delete :
    (id : Bytes)
    → IsSegment id
    → requests_mux (codes "DELETE") (codes "/requests/" ++ (id ++ codes "/vote"))
      ≡ found Endpoint.remove_vote id
unfolding requests_mux by_parts bytes_eq
find_delete id segment = ap (by_parts (codes "DELETE")) (vote_path id segment)

method-IsFound :
    (method after : Bytes) (e : Endpoint)
    → ((id : Bytes)
        → IsSegment id
        → requests_mux method (codes "/requests/" ++ (id ++ after)) ≡ found e id)
    → IsFound (record {
      method = some method;
      pattern = with_id (codes "/requests/") after;
      endpoint = e;
    })
method-IsFound method after e finds method' _ _ id same _ segment =
    subst (λ m. requests_mux m (codes "/requests/" ++ (id ++ after)) ≡ found e id)
      (some-injective method method' same) (finds id segment)

open-IsFound : All IsFound open_routes
open-IsFound = (
  static-IsFound _ (codes "/healthz") refl,
  (
    static-IsFound _ (codes "/health") refl,
    (
      static-IsFound _ (codes "/readyz") refl,
      (
        static-IsFound _ (codes "/metrics") refl,
        (
          static-IsFound _ (codes "/auth/register") refl,
          (
            static-IsFound _ (codes "/auth/login") refl,
            (static-IsFound _ (codes "/auth/refresh") refl, tt),
          ),
        ),
      ),
    ),
  ),
)

protected-IsFound : All IsFound protected_routes
protected-IsFound = (
  static-IsFound _ (codes "/requests") refl,
  (
    static-IsFound _ (codes "/requests") refl,
    (
      method-IsFound (codes "GET") [] Endpoint.get_by_id find_plain,
      (
        method-IsFound (codes "PUT") (codes "/vote") Endpoint.upvote find_put,
        (method-IsFound (codes "DELETE") (codes "/vote") Endpoint.remove_vote find_delete, tt),
      ),
    ),
  ),
)

pub requests_mux-MuxLaws : MuxLaws requests_mux
unfolding requests_mux
requests_mux-MuxLaws = record {
  sound = λ method path e id h.
      (let (route, place, same, takes, shape) = by_parts-IsRouted method (split b'/' path) e id h in
        (route, place, same, takes, sym (join-split b'/' path) ∙ shape));
  complete = λ route method before after id place same shape segment.
      All-Mem IsFound route routes place
        (All-append IsFound open_routes protected_routes open-IsFound protected-IsFound) method
        before after id same shape segment;
  refusals = λ method path out h. by_parts-refused method (split b'/' path) out h;
}
