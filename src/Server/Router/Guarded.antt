-- ===== src/Server/Router/Guarded.antt =====
-- What the routes promise: who reaches a protected handler, and what the client gets of it.
use mathlib.Core.List.{Memᴰ}
use mathlib.Core.Path.{subst}
use mathlib.Core.Bool.{false≢true}
use feature_voting_system.Prelude.{
  ℕ, ◌≡◌, ◌≢◌, refl, sym, ap, ◌∙◌, ◌⊎◌, inl, inr, true, false, List, [], ◌∷◌, ◌++◌, none, some,
  Bytes, codes, arith, All, All-append, bytes_eq, bytes_eq_refl, take,
}
use feature_voting_system.Errors.{Result, ok}
use feature_voting_system.Text.Split.{Lacks}
use feature_voting_system.Http.{Request, Response, Body}
use feature_voting_system.Middleware.Auth.Gate.{Bears}
use feature_voting_system.Middleware.RateLimit.{RateStore}
use feature_voting_system.Server.{protected}
use feature_voting_system.Server.Protected.{protected-cases}
use feature_voting_system.Server.Router.{
  Endpoint, with_id, Route, open_routes, protected_routes, is_protected, path_of, Found, found,
  refused, Mux, Api, serve,
}

-- The routes of the server.
abbrev pub routes : List Route
routes = open_routes ++ protected_routes

-- What stands for {id}: not empty, and without a slash.
abbrev pub IsSegment : Bytes → Type 0
IsSegment id = (id ≢ []) × Lacks b'/' id

-- A route's method is the request's, or any.
abbrev pub Takes : Route → Bytes → Type 0
Takes route method = (route.method ≡ none) ⊎ (route.method ≡ some method)

-- chi gives a request to a route of its method whose pattern stands for the path, and to a route
-- with {id} every path of it; its own answers are 404 and 405.
pub record MuxLaws (mux : Mux) : Type 0 where
  pub sound :
      (method path : Bytes) (e : Endpoint) (id : Bytes)
      → mux method path ≡ found e id
      → (route : Route) × Memᴰ route routes
        × (route.endpoint ≡ e)
        × Takes route method
        × (path ≡ path_of route.pattern id)
  pub complete :
      (route : Route) (method before after id : Bytes)
      → Memᴰ route routes
      → route.method ≡ some method
      → route.pattern ≡ with_id before after
      → IsSegment id
      → mux method (path_of route.pattern id) ≡ found route.endpoint id
  pub refusals :
      (method path : Bytes) (out : Response (Body Bytes))
      → mux method path ≡ refused out
      → (out.status ≡ 404) ⊎ (out.status ≡ 405)

-- The routes under /requests are protected.
abbrev IsGuarded : Route → Type 0
IsGuarded route =
    (rest id : Bytes)
    → codes "/requests" ++ rest ≡ path_of route.pattern id
    → is_protected route.endpoint ≡ true

pub All-Mem : {A : Type 0} (P : A → Type 0) (x : A) (xs : List A) → Memᴰ x xs → All P xs → P x
All-Mem P x [] m h = elim m [ ]
All-Mem P x (y ∷ xs) (Memᴰ.head e) h = subst P (sym e) h.0
All-Mem P x (y ∷ xs) (Memᴰ.tail m) h = All-Mem P x xs m h.1

elsewhere :
    (path rest : Bytes)
    → bytes_eq (take 9 path) (codes "/requests") ≡ false
    → codes "/requests" ++ rest ≡ path
    → ⊥
elsewhere path rest other e = false≢true (sym other ∙ starts)
  where
    starts : bytes_eq (take 9 path) (codes "/requests") ≡ true
    starts =
        subst (λ p. bytes_eq (take 9 p) (codes "/requests") ≡ true) e
          (bytes_eq_refl (codes "/requests"))

abbrev IsElsewhere : Bytes → Type 0
IsElsewhere path = bytes_eq (take 9 path) (codes "/requests") ≡ false

open_paths :
    IsElsewhere (codes "/healthz")
    × IsElsewhere (codes "/health")
    × IsElsewhere (codes "/readyz")
    × IsElsewhere (codes "/metrics")
    × IsElsewhere (codes "/auth/register")
    × IsElsewhere (codes "/auth/login")
    × IsElsewhere (codes "/auth/refresh")
unfolding bytes_eq
open_paths = (refl, refl, refl, refl, refl, refl, refl)

open_routes-IsGuarded : All IsGuarded open_routes
open_routes-IsGuarded =
    let (p₁, p₂, p₃, p₄, p₅, p₆, p₇) = open_paths in
    (
      λ rest id e. absurd (elsewhere _ rest p₁ e),
      (
        λ rest id e. absurd (elsewhere _ rest p₂ e),
        (
          λ rest id e. absurd (elsewhere _ rest p₃ e),
          (
            λ rest id e. absurd (elsewhere _ rest p₄ e),
            (
              λ rest id e. absurd (elsewhere _ rest p₅ e),
              (
                λ rest id e. absurd (elsewhere _ rest p₆ e),
                (λ rest id e. absurd (elsewhere _ rest p₇ e), tt),
              ),
            ),
          ),
        ),
      ),
    )

protected_routes-IsGuarded : All IsGuarded protected_routes
protected_routes-IsGuarded = (
  λ rest id e. refl,
  (λ rest id e. refl, (λ rest id e. refl, (λ rest id e. refl, (λ rest id e. refl, tt)))),
)

routes-IsGuarded : All IsGuarded routes
routes-IsGuarded =
    All-append IsGuarded open_routes protected_routes open_routes-IsGuarded
      protected_routes-IsGuarded

pub Found-cases :
    (f : Found)
    → ((e : Endpoint) × (id : Bytes) × (f ≡ found e id))
      ⊎ ((out : Response (Body Bytes)) × (f ≡ refused out))
Found-cases (found e id) = inl (e, id, refl)
Found-cases (refused out) = inr (out, refl)

abbrev pub for_user : Request → Bytes → Bytes → Request
for_user r id user = record (record r { path_id = id }) { context_user = some user }

module _ {S R : Type 0} (mux : Mux) (laws : MuxLaws mux) (verify : Bytes → Result Bytes)
    (store : RateStore R) (now : ℕ) (api : Api S) (r : Request) (s : S) (w : R) where
  -- The handler of the protected route that the router found ran for the user of the request's
  -- bearer token, which was verified.
  abbrev pub RanFor : Response (Body Bytes) × (S × R) → Type 0
  RanFor out =
      (e : Endpoint) × (id user scheme token : Bytes) × (mux r.method r.path ≡ found e id)
      × (is_protected e ≡ true)
      × Bears r scheme token
      × (verify token ≡ ok user)
      × (out.0.status ≡ (api e (for_user r id user) s).0.status)
      × (out.1.0 ≡ (api e (for_user r id user) s).1)

  abbrev pub Refused : Response (Body Bytes) × (S × R) → Type 0
  Refused out =
      (((out.0.status ≡ 401) ⊎ (out.0.status ≡ 429))
        ⊎ ((out.0.status ≡ 404) ⊎ (out.0.status ≡ 405)))
      × (out.1.0 ≡ s)

  handle-guarded :
      (e : Endpoint) (id : Bytes)
      → is_protected e ≡ true
      → mux r.method r.path ≡ found e id
      → RanFor (serve mux verify store now api r (s, w))
        ⊎ Refused (serve mux verify store now api r (s, w))
  unfolding serve
  handle-guarded e id guarded routed =
      let routed_to : serve mux verify store now api r (s, w)
          ≡ protected verify store now (api e) (record r { path_id = id }) (s, w) =
        ground (arith, routed, guarded) in
      elim (protected-cases verify store now (api e) (record r { path_id = id }) s w) [
        | inl (user, scheme, token, bears, verified, status, state) ↦ inl (
          e,
          id,
          user,
          scheme,
          token,
          routed,
          guarded,
          bears,
          verified,
          ap (λ out. out.0.status) routed_to ∙ status,
          ap (λ out. out.1.0) routed_to ∙ state,
        )
        | inr (status, state) ↦ inr (
          inl (subst (λ out. (out.0.status ≡ 401) ⊎ (out.0.status ≡ 429)) (sym routed_to) status),
          ap (λ out. out.1.0) routed_to ∙ state,
        )
      ]

  -- Under /requests the handler of the protected route that the router finds runs for the user of
  -- the request's bearer token, which is verified, or the answer is 401, 429, 404 or 405 and the
  -- handlers' state is as it was.
  pub requests-guarded :
      (rest : Bytes)
      → r.path ≡ codes "/requests" ++ rest
      → RanFor (serve mux verify store now api r (s, w))
        ⊎ Refused (serve mux verify store now api r (s, w))
  unfolding serve
  requests-guarded rest path = elim (Found-cases (mux r.method r.path)) [
    | inl (e, id, routed) ↦
        let (route, listed, endpoint, _, same) = laws.sound r.method r.path e id routed in
        let guarded = All-Mem IsGuarded route routes listed routes-IsGuarded in
        handle-guarded e id (ap is_protected (sym endpoint) ∙ guarded rest id (sym path ∙ same))
          routed
    | inr (out, none_found) ↦
        let answer : serve mux verify store now api r (s, w) ≡ (out, (s, w)) =
          ground (arith, none_found) in
        inr (
          inr (
              subst (λ o. (o.0.status ≡ 404) ⊎ (o.0.status ≡ 405)) (sym answer)
                (laws.refusals r.method r.path out none_found)),
          ap (λ o. o.1.0) answer,
        )
  ]
