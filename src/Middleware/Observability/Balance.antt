-- ===== src/Middleware/Observability/Balance.antt =====
-- The metrics over any interleaving of requests.
use feature_voting_system.Prelude.{
  ℕ, suc, ◌+◌, ◌≡◌, refl, ap, ◌∙◌, inl, inr, ◌&&◌, List, [], ◌∷◌, Bytes, ℤ, pos, ◌+ℤ◌, ◌-ℤ◌, arith,
  bytes_eq, if◌then◌else◌,
}
use feature_voting_system.Text.Decimal.{write_int}
use feature_voting_system.Http.{Request}
use feature_voting_system.Http.Writer.{Ending-cases, returned, panicked, Trace}
use feature_voting_system.Middleware.Observability.{Metrics, recorded, count_request}

-- What the registry of Prometheus promises: each call changes its own number, by one.
pub record MetricsLaws {M : Type 0} (m : Metrics M) (gauge : M → ℤ)
    (total : M → Bytes → Bytes → Bytes → ℕ) : Type 0 where
  pub gauge_inc : (reg : M) → gauge (m.in_flight_inc reg) ≡ gauge reg +ℤ pos 1
  pub gauge_dec : (reg : M) → gauge (m.in_flight_dec reg) ≡ gauge reg -ℤ pos 1
  pub gauge_total : (a b c : Bytes) (reg : M) → gauge (m.requests_total_inc a b c reg) ≡ gauge reg
  pub gauge_observe :
      (a b : Bytes) (reg : M) → gauge (m.request_duration_observe a b reg) ≡ gauge reg
  pub total_inc :
      (a b c a' b' c' : Bytes) (reg : M)
      → total (m.requests_total_inc a b c reg) a' b' c'
        ≡ (if bytes_eq a a' && (bytes_eq b b' && bytes_eq c c') then 1 else 0) + total reg a' b' c'
  pub total_gauge_inc :
      (a b c : Bytes) (reg : M) → total (m.in_flight_inc reg) a b c ≡ total reg a b c
  pub total_gauge_dec :
      (a b c : Bytes) (reg : M) → total (m.in_flight_dec reg) a b c ≡ total reg a b c
  pub total_observe :
      (a b a' b' c' : Bytes) (reg : M)
      → total (m.request_duration_observe a b reg) a' b' c' ≡ total reg a' b' c'

-- A request enters the middleware, or leaves it with what its handler has done.
pub data Phase : Type 0 where
  enters : Phase
  leaves : Request → Trace → Phase

abbrev pub entered : List Phase → ℕ
entered [] = 0
entered (enters ∷ ps) = suc (entered ps)
entered (leaves r t ∷ ps) = entered ps

abbrev pub left : List Phase → ℕ
left [] = 0
left (enters ∷ ps) = left ps
left (leaves r t ∷ ps) = suc (left ps)

-- The requests that returned with these labels.
abbrev counts_as : Bytes → Bytes → Bytes → Request → Trace → ℕ
counts_as method path status r t = elim t.ending [
  | returned ↦
      if bytes_eq r.method method
        && (bytes_eq r.path path && bytes_eq (write_int (pos (recorded t.writes))) status)
      then 1
      else 0
  | panicked p ↦ 0
]

abbrev pub returned_as : Bytes → Bytes → Bytes → List Phase → ℕ
returned_as method path status [] = 0
returned_as method path status (enters ∷ ps) = returned_as method path status ps
returned_as method path status (leaves r t ∷ ps) =
    counts_as method path status r t + returned_as method path status ps

module _ {M : Type 0} (m : Metrics M) where
  pub phases : List Phase → M → M
  phases [] reg = reg
  phases (enters ∷ ps) reg = phases ps (m.in_flight_inc reg)
  phases (leaves r t ∷ ps) reg = phases ps (count_request m r t reg)

add_one : (a b : ℤ) (l e : ℕ) → a +ℤ pos l ≡ (b +ℤ pos 1) +ℤ pos e → a +ℤ pos l ≡ b +ℤ pos (suc e)
unfolding ◌+ℤ◌
add_one a b l e h = h ∙ shift b e
  where
    shift : (b : ℤ) (e : ℕ) → (b +ℤ pos 1) +ℤ pos e ≡ b +ℤ pos (suc e)
    shift b e = unfold ◌+ℤ◌ in ground arith

sub_one : (a b : ℤ) (l e : ℕ) → a +ℤ pos l ≡ (b -ℤ pos 1) +ℤ pos e → a +ℤ pos (suc l) ≡ b +ℤ pos e
unfolding ◌+ℤ◌ ◌-ℤ◌
sub_one a b l e h = ground (arith, h)

module _ {M : Type 0} (m : Metrics M) (gauge : M → ℤ) (total : M → Bytes → Bytes → Bytes → ℕ)
    (laws : MetricsLaws m gauge total) where
  count_request-gauge :
      (r : Request) (t : Trace) (reg : M) → gauge (count_request m r t reg) ≡ gauge reg -ℤ pos 1
  count_request-gauge r t reg =
      let code = write_int (pos (recorded t.writes)) in
      elim (Ending-cases t.ending) [
        | inl fine ↦ ground (
          arith,
          fine,
          laws.gauge_dec (
              m.request_duration_observe r.method r.path
                (m.requests_total_inc r.method r.path code reg)),
          laws.gauge_observe r.method r.path (m.requests_total_inc r.method r.path code reg),
          laws.gauge_total r.method r.path code reg,
        )
        | inr (p, panic) ↦ ground (arith, panic, laws.gauge_dec reg)
      ]

  count_request-total :
      (a b c : Bytes) (r : Request) (t : Trace) (reg : M)
      → total (count_request m r t reg) a b c ≡ counts_as a b c r t + total reg a b c
  count_request-total a b c r t reg =
      let code = write_int (pos (recorded t.writes)) in
      elim (Ending-cases t.ending) [
        | inl fine ↦ ground (
          arith,
          fine,
          laws.total_gauge_dec a b c (
              m.request_duration_observe r.method r.path
                (m.requests_total_inc r.method r.path code reg)),
          laws.total_observe r.method r.path a b c (m.requests_total_inc r.method r.path code reg),
          laws.total_inc r.method r.path code a b c reg,
        )
        | inr (p, panic) ↦ ground (arith, panic, laws.total_gauge_dec a b c reg)
      ]

  phases-gauge :
      (ps : List Phase) (reg : M)
      → gauge (phases m ps reg) +ℤ pos (left ps) ≡ gauge reg +ℤ pos (entered ps)
  unfolding phases
  phases-gauge [] reg = refl
  phases-gauge (enters ∷ ps) reg =
      add_one (gauge (phases m ps (m.in_flight_inc reg))) (gauge reg) (left ps) (entered ps) (
        phases-gauge ps (m.in_flight_inc reg)
        ∙ ap (λ z. z +ℤ pos (entered ps)) (laws.gauge_inc reg))
  phases-gauge (leaves r t ∷ ps) reg =
      let reg' = count_request m r t reg in
      sub_one (gauge (phases m ps reg')) (gauge reg) (left ps) (entered ps)
        (phases-gauge ps reg' ∙ ap (λ z. z +ℤ pos (entered ps)) (count_request-gauge r t reg))

  phases-total :
      (a b c : Bytes) (ps : List Phase) (reg : M)
      → total (phases m ps reg) a b c ≡ returned_as a b c ps + total reg a b c
  unfolding phases
  phases-total a b c [] reg = omega arith
  phases-total a b c (enters ∷ ps) reg =
      phases-total a b c ps (m.in_flight_inc reg)
      ∙ ap (λ n. returned_as a b c ps + n) (laws.total_gauge_inc a b c reg)
  phases-total a b c (leaves r t ∷ ps) reg =
      omega
        (arith, phases-total a b c ps (count_request m r t reg), count_request-total a b c r t reg)

  -- However requests are interleaved, the gauge has gone up by those that entered and down by those
  -- that left, panicked ones included, and each counter has gone up by the requests that returned
  -- with its labels. Each call of the registry changes its own number, by one.
  pub phases-balanced :
      (ps : List Phase) (reg : M) (a b c : Bytes)
      → (gauge (phases m ps reg) +ℤ pos (left ps) ≡ gauge reg +ℤ pos (entered ps))
        × (total (phases m ps reg) a b c ≡ returned_as a b c ps + total reg a b c)
  phases-balanced ps reg a b c = (phases-gauge ps reg, phases-total a b c ps reg)
