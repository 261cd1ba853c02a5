-- ===== src/Middleware/Auth/Gate.antt =====
-- Who passes the check of the bearer token.
use feature_voting_system.Prelude.{
  ℕ, ◌≡◌, ◌⊎◌, refl, inl, inr, true, false, [], ◌∷◌, ◌++◌, some, Bytes, codes, arith, bytes_eq,
  Bool-cases, Option-cases,
}
use feature_voting_system.Errors.{Error, Result, ok, err, Result-cases}
use feature_voting_system.Text.Split.{Lacks, split_n, cut_at, cut_at-append, cut_at-some}
use feature_voting_system.Http.{Request, HttpHandler}
use feature_voting_system.Middleware.Auth.{is_bearer, auth}

-- The header that carries a token under a scheme, in any case of its letters.
abbrev pub Bears : Request → Bytes → Bytes → Type 0
Bears r scheme token =
    (r.header (codes "Authorization") ≡ scheme ++ (b' ' ∷ token))
    × (is_bearer scheme ≡ true)
    × Lacks b' ' scheme

append_cons-ne_nil : (p : Bytes) (c : ℕ) (q : Bytes) → bytes_eq (p ++ (c ∷ q)) (codes "") ≡ false
unfolding bytes_eq
append_cons-ne_nil [] c q = refl
append_cons-ne_nil (a ∷ p) c q = refl

module _ {S B : Type 0} (verify : Bytes → Result Bytes) (next : HttpHandler S B) (r : Request)
    (s : S) where
  -- A token that verifies, under `bearer` in any case of its letters, lets the request through to
  -- the handler, with the token's user in its context.
  pub auth_passes :
      (scheme token user : Bytes)
      → Bears r scheme token
      → verify token ≡ ok user
      → auth verify next r s ≡ next (record r { context_user = some user }) s
  unfolding auth split_n
  auth_passes scheme token user bears verified = ground (
    arith,
    append_cons-ne_nil scheme b' ' token,
    cut_at-append b' ' scheme token bears.2,
    verified,
  )

  pub auth_refuses :
      (scheme token : Bytes) (e : Error)
      → Bears r scheme token
      → verify token ≡ err e
      → ((auth verify next r s).0.status ≡ 401) × ((auth verify next r s).1 ≡ s)
  unfolding auth split_n
  auth_refuses scheme token e bears refused = (
    ground (
      arith,
      append_cons-ne_nil scheme b' ' token,
      cut_at-append b' ' scheme token bears.2,
      refused,
    ),
    ground (
      arith,
      append_cons-ne_nil scheme b' ' token,
      cut_at-append b' ' scheme token bears.2,
      refused,
    ),
  )

  -- The handler behind the check is reached only with the user of the request's bearer token, which
  -- was verified, or else the answer is 401 and the state is left alone.
  pub auth-cases :
      ((user scheme token : Bytes) × Bears r scheme token
        × (verify token ≡ ok user)
        × (auth verify next r s ≡ next (record r { context_user = some user }) s))
      ⊎ (((auth verify next r s).0.status ≡ 401) × ((auth verify next r s).1 ≡ s))
  unfolding auth split_n
  auth-cases = elim (Bool-cases (bytes_eq header (codes ""))) [
    | inl missing ↦ inr (ground arith)
    | inr there ↦ elim (Option-cases (cut_at b' ' header)) [
      | inl whole ↦ inr (ground arith)
      | inr ((scheme, token), parts) ↦ elim (Bool-cases (is_bearer scheme)) [
        | inr other ↦ inr (ground arith)
        | inl bearer ↦ elim (Result-cases (verify token)) [
          | inr (e, failed) ↦ inr (ground arith)
          | inl (user, verified) ↦
              let (whole, lacks) = cut_at-some b' ' header scheme token parts in
              inl (user, scheme, token, (whole, bearer, lacks), verified, ground arith)
        ]
      ]
    ]
  ]
    where
      header : Bytes
      header = r.header (codes "Authorization")
