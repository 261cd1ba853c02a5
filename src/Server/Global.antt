-- ===== src/Server/Global.antt =====
-- What the middleware of all routes makes of a handler that returns, and of one that panics.
use mathlib.Core.Path.{subst}
use feature_voting_system.Prelude.{
  ℕ, ◌≡◌, refl, sym, ap, ◌∙◌, ◌⊎◌, inl, inr, List, [], ◌∷◌, ◌++◌, none, some, map, Bytes, codes,
  arith, Option-cases,
}
use feature_voting_system.Http.{Request}
use feature_voting_system.Http.Writer.{
  Ending-cases, returned, panicked, Trace, Handler, Sent, send_all, unsent, header_set,
  error_writes,
}
use feature_voting_system.Http.Writer.Answer.{
  SameAnswer, send_all-append, send_all-headers, send_all-IsBlank,
}
use feature_voting_system.Middleware.Observability.{
  LogLine, Metrics, recorded, unexpected, recovered, recover, request_logging, count_request,
  metrics,
}
use feature_voting_system.Middleware.Security.{security, security_headers}
use feature_voting_system.Server.{global}

-- What the client has got when the handler ends.
abbrev pub answered : Trace → Sent
answered t = send_all t.writes unsent

-- The error text is sent after a panic, unless a status was sent before it.
abbrev pub IsError : Sent → Sent → Type 0
IsError before after =
    ((before.status ≡ none) × (after.status ≡ some 500) × (after.body ≡ unexpected ++ codes "\n"))
    ⊎ ((n : ℕ) × (before.status ≡ some n) × (after.status ≡ some n))

error_writes-IsError :
    (w : Sent)
    → (w.status ≡ none → w.body ≡ [])
    → IsError w (send_all (error_writes unexpected 500) w)
unfolding send_all
error_writes-IsError w blank = elim (Option-cases w.status) [
  | inl early ↦ inl (early, ground (arith, early), ground (arith, early, blank early))
  | inr (n, closed) ↦ inr (n, closed, ground (arith, closed))
]

IsError-SameAnswer : (v w after : Sent) → SameAnswer v w → IsError v after → IsError w after
IsError-SameAnswer v w after same h = elim h [
  | inl (early, status, body) ↦ inl (sym same.0 ∙ early, status, body)
  | inr (n, closed, status) ↦ inr (n, sym same.0 ∙ closed, status)
]

recovered-returned : (t : Trace) → t.ending ≡ returned → recovered t ≡ t
recovered-returned t fine = rw fine refl

recovered-panicked :
    (t : Trace) (p : Bytes)
    → t.ending ≡ panicked p
    → (recovered t).writes ≡ t.writes ++ error_writes unexpected 500
recovered-panicked t p panic = rw panic refl

abbrev secured : Trace → Trace
secured t = record t { writes = map header_set security ++ t.writes }

secured-SameAnswer : (t : Trace) → SameAnswer (answered (secured t)) (answered t)
secured-SameAnswer t = send_all-headers security t.writes unsent unsent (refl, refl)

recovered-IsError :
    (t : Trace) (p : Bytes)
    → t.ending ≡ panicked p
    → IsError (answered t) (answered (recovered (secured t)))
recovered-IsError t p panic =
    let w = answered (secured t) in
    let blank = send_all-IsBlank (secured t).writes unsent (λ _. refl) in
    let sent : answered (recovered (secured t)) ≡ send_all (error_writes unexpected 500) w =
      ap (λ xs. send_all xs unsent) (recovered-panicked (secured t) p panic)
      ∙ send_all-append (secured t).writes (error_writes unexpected 500) unsent in
    IsError-SameAnswer w (answered t) (answered (recovered (secured t))) (secured-SameAnswer t)
      (subst (IsError w) (sym sent) (error_writes-IsError w blank))

abbrev pub line : Request → Trace → LogLine
line r t = record { method = r.method; path = r.path; status = recorded t.writes }

module _ {S M : Type 0} (m : Metrics M) (next : Handler S) (r : Request) (s : S) (reg : M)
    (log : List LogLine) where
  -- Behind the middleware no panic is left, and the handler's state is its own. A handler that
  -- returns has its status and body sent, and one line is logged; one that panics has a 500 sent
  -- unless it had sent a status, and no line is logged. The counters change as `count_request`
  -- says, after one increment of the gauge.
  pub global-cases :
      let (t, s') = next r s in
      let (out, ((s'', reg'), log')) = global m next r ((s, reg), log) in
      (out.ending ≡ returned)
      × (s'' ≡ s')
      × (reg' ≡ count_request m r t (m.in_flight_inc reg))
      × (((t.ending ≡ returned) × SameAnswer (answered out) (answered t) × (log' ≡ line r t ∷ log))
          ⊎ ((p : Bytes) × (t.ending ≡ panicked p)
              × IsError (answered t) (answered out)
              × (log' ≡ log)))
  unfolding global recover request_logging metrics security_headers
  global-cases = elim (Ending-cases (next r s).0.ending) [
    | inl fine ↦ (
      ground (arith, fine),
      refl,
      refl,
      inl (
        fine,
        subst (λ u. SameAnswer (answered u) (answered (next r s).0))
            (sym (recovered-returned (secured (next r s).0) fine))
            (secured-SameAnswer (next r s).0),
        ground (arith, fine),
      ),
    )
    | inr (p, panic) ↦ (
      ground (arith, panic),
      refl,
      refl,
      inr (p, panic, recovered-IsError (next r s).0 p panic, ground (arith, panic)),
    )
  ]
