-- ===== src/Server/Router/Reached.antt =====
-- A request that passes every check, from the router to the handler, and what is sent of it.
use mathlib.Core.List.{Memᴰ}
use feature_voting_system.Prelude.{
  ℕ, ◌≡◌, ◌≢◌, ◌≤◌, refl, ap, ◌∙◌, inl, inr, false, List, ◌∷◌, ◌++◌, some, Bytes, codes, arith, ltb,
}
use feature_voting_system.Errors.{Result, ok}
use feature_voting_system.Http.{Request, Body, HttpHandler}
use feature_voting_system.Http.Writer.{
  returned, panicked, response_writes, respond, is_informational,
}
use feature_voting_system.Middleware.Auth.{auth}
use feature_voting_system.Middleware.Auth.Gate.{Bears, auth_passes}
use feature_voting_system.Middleware.RateLimit.{RateStore, subject, rate_key, rate_limit}
use feature_voting_system.Middleware.Observability.{LogLine, Metrics}
use feature_voting_system.Middleware.Observability.Recorded.{recorded-sent, response-IsOrderly}
use feature_voting_system.Handler.Votes
use feature_voting_system.Server.{requests_per_minute, protected}
use feature_voting_system.Server.Global.{answered, global-cases}
use feature_voting_system.Server.Router.{Endpoint, with_id, found, Mux, Api, serve, server}
use feature_voting_system.Server.Router.Guarded.{routes, IsSegment, MuxLaws, for_user}
use feature_voting_system.Server.Router.Wiring.{Parts, api}

returned-ne-panicked : (p : Bytes) → returned ≢ panicked p
returned-ne-panicked p e = cc

rate_limit-within :
    {R S B : Type 0} (store : RateStore R) (limit window now n : ℕ) (next : HttpHandler S B)
    (r : Request) (s : S) (w : R)
    → (store.incr (rate_key (subject r) window now) w).0 ≡ ok n
    → n ≤ limit
    → let out = rate_limit store limit window now next r (s, w) in
      (out.0 ≡ (next r s).0) × (out.1.0 ≡ (next r s).1)
unfolding rate_limit
rate_limit-within store limit window now n next r s w counted within =
    let fits : ltb limit n ≡ false = ground (arith, within) in ground (arith, counted, fits)

upvote_listed :
    Memᴰ
      (record {
        method = some (codes "PUT");
        pattern = with_id (codes "/requests/") (codes "/vote");
        endpoint = Endpoint.upvote;
      })
      routes
upvote_listed = Memᴰ.tail (
    Memᴰ.tail (
      Memᴰ.tail (
        Memᴰ.tail (
          Memᴰ.tail (Memᴰ.tail (Memᴰ.tail (Memᴰ.tail (Memᴰ.tail (Memᴰ.tail (Memᴰ.head refl))))))))))

module _ {S R : Type 0} (mux : Mux) (laws : MuxLaws mux) (verify : Bytes → Result Bytes)
    (store : RateStore R) (now : ℕ) (parts : Parts S) (r : Request) (s : S) (w : R) where
  -- `PUT /requests/{id}/vote` with a token that verifies, of a user within the limit, votes for
  -- that request as the token's user: the status and the tables are those of the handler of votes.
  pub serve-upvote :
      (id scheme token user : Bytes) (n : ℕ)
      → r.method ≡ codes "PUT"
      → r.path ≡ codes "/requests/" ++ (id ++ codes "/vote")
      → IsSegment id
      → Bears r scheme token
      → verify token ≡ ok user
      → (store.incr (rate_key (subject (for_user r id user)) 60 now) w).0 ≡ ok n
      → n ≤ requests_per_minute
      → let out = serve mux verify store now (api parts) r (s, w) in
        let done = Votes.upvote parts.vote_repo (for_user r id user) s in
        (out.0.status ≡ done.0.status) × (out.1.0 ≡ done.1)
  unfolding serve protected api
  serve-upvote id scheme token user n method path segment bears verified counted within =
      let routed : mux r.method r.path ≡ found Endpoint.upvote id =
        ap (λ m. mux m r.path) method
        ∙ (ap (mux (codes "PUT")) path
            ∙ laws.complete _ (codes "PUT") (codes "/requests/") (codes "/vote") id upvote_listed
                refl refl segment) in
      let r' = record r { path_id = id } in
      let next = rate_limit store requests_per_minute 60 now (api parts Endpoint.upvote) in
      let passed = auth_passes verify next r' (s, w) scheme token user bears verified in
      let reached =
        rate_limit-within store requests_per_minute 60 now n (api parts Endpoint.upvote)
          (for_user r id user) s w counted within in
      let routed_to : serve mux verify store now (api parts) r (s, w) ≡ auth verify next r' (s, w) =
        ground (arith, routed) in
      let whole : serve mux verify store now (api parts) r (s, w)
          ≡ next (for_user r id user) (s, w) =
        routed_to ∙ passed in
      (
        ap (λ out. out.0.status) whole ∙ ap (λ out. out.status) reached.0,
        ap (λ out. out.1.0) whole ∙ reached.1,
      )

-- The client gets the status that the router leaves, if it is a final one, and so does the line of
-- the log.
pub server-serve :
    {S R M : Type 0} (mux : Mux) (verify : Bytes → Result Bytes) (store : RateStore R) (now : ℕ)
    (a : Api S) (m : Metrics M) (write : Body Bytes → Bytes) (r : Request) (s : S × R) (reg : M)
    (log : List LogLine)
    → is_informational (serve mux verify store now a r s).0.status ≡ false
    → let done = serve mux verify store now a r s in
      let (out, ((state, reg'), log')) = server mux verify store now a m write r ((s, reg), log) in
      ((answered out).status ≡ some done.0.status)
      × (state ≡ done.1)
      × (log' ≡ record { method = r.method; path = r.path; status = done.0.status } ∷ log)
unfolding server
server-serve mux verify store now a m write r s reg log final =
    let next = respond write (serve mux verify store now a) in
    let done = (serve mux verify store now a r s).0 in
    let (status, sent) =
      recorded-sent done.status (response_writes write done)
        (response-IsOrderly write done final) in
    let (_, state, _, ended) = global-cases m next r s reg log in
    elim ended [
      | inl (_, same, line) ↦ (
        same.0 ∙ sent,
        state,
        line ∙ ap (λ n. record { method = r.method; path = r.path; status = n } ∷ log) status,
      )
      | inr (p, panic, _, _) ↦ absurd (returned-ne-panicked p panic)
    ]
