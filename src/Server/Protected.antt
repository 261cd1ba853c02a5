-- ===== src/Server/Protected.antt =====
-- What reaches a handler behind the middleware.
use feature_voting_system.Prelude.{ℕ, ◌≡◌, ◌⊎◌, inl, inr, some, Bytes, arith, Bool-cases, ltb}
use feature_voting_system.Errors.{Result, ok, Result-cases}
use feature_voting_system.Http.{Request, Response, Body, HttpHandler}
use feature_voting_system.Middleware.Auth.Gate.{Bears, auth-cases}
use feature_voting_system.Middleware.RateLimit.{RateStore, subject, rate_key, rate_limit}
use feature_voting_system.Server.{requests_per_minute, protected}

-- The handler ran, with this answer's status and its state, or the request was limited.
abbrev Limited :
    {S R B : Type 0} → HttpHandler S B → Request → S → Response (Body B) × (S × R) → Type 0
Limited next r s out =
    ((out.0.status ≡ (next r s).0.status) × (out.1.0 ≡ (next r s).1))
    ⊎ ((out.0.status ≡ 429) × (out.1.0 ≡ s))

rate_limit-cases :
    {S R B : Type 0} (store : RateStore R) (limit window now : ℕ) (next : HttpHandler S B)
    (r : Request) (s : S) (w : R)
    → Limited next r s (rate_limit store limit window now next r (s, w))
unfolding rate_limit
rate_limit-cases store limit window now next r s w =
    let key = rate_key (subject r) window now in
    elim (Result-cases (store.incr key w).0) [
      | inr (e, failed) ↦ inl (ground arith)
      | inl (n, counted) ↦ elim (Bool-cases (ltb limit n)) [
        | inl over ↦ inr (ground arith)
        | inr within ↦ inl (ground arith)
      ]
    ]

-- Behind `Auth` and `RateLimit` either the request's bearer token was verified, and the answer has
-- the status, and the state is the one, that the handler gives for the user of this token; or the
-- answer is 401 or 429, and the handler's state is as it was.
pub protected-cases :
    {S R B : Type 0} (verify : Bytes → Result Bytes) (store : RateStore R) (now : ℕ)
    (next : HttpHandler S B) (r : Request) (s : S) (w : R)
    → let out = protected verify store now next r (s, w) in
      ((user scheme token : Bytes) × Bears r scheme token
        × (verify token ≡ ok user)
        × (out.0.status ≡ (next (record r { context_user = some user }) s).0.status)
        × (out.1.0 ≡ (next (record r { context_user = some user }) s).1))
      ⊎ (((out.0.status ≡ 401) ⊎ (out.0.status ≡ 429)) × (out.1.0 ≡ s))
unfolding protected
protected-cases verify store now next r s w =
    elim (auth-cases verify (rate_limit store requests_per_minute 60 now next) r (s, w)) [
      | inr (refused, same) ↦ inr (inl (ground (arith, refused)), ground (arith, same))
      | inl (user, scheme, token, bears, verified, passed) ↦
          elim (rate_limit-cases store requests_per_minute 60 now next
            (record r { context_user = some user }) s w) [
              | inl (status, state) ↦ inl (
                user,
                scheme,
                token,
                bears,
                verified,
                ground (arith, passed, status),
                ground (arith, passed, state),
              )
              | inr (status, state) ↦
                  inr (inr (ground (arith, passed, status)), ground (arith, passed, state))
            ]
    ]
