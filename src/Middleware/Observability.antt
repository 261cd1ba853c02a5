-- ===== src/Middleware/Observability.antt =====
-- internal/middleware/observability.go: the recovery from panics, the log and the metrics.
pub mod Recorded
pub mod Balance
use feature_voting_system.Prelude.{ℕ, List, [], ◌∷◌, ◌++◌, Bytes, codes, ℤ, pos}
use feature_voting_system.Text.Decimal.{write_int}
use feature_voting_system.Http.{Request}
use feature_voting_system.Http.Writer.{
  Write, header_set, header_del, write_header, write, Ending, returned, panicked, Trace, Handler,
  error_writes,
}

-- `statusRecorder`: its `WriteHeader` keeps the status and passes it on; all else is passed on.
pub recorded_from : ℕ → List Write → ℕ
recorded_from status [] = status
recorded_from status (write_header n ∷ xs) = recorded_from n xs
recorded_from status (header_set h ∷ xs) = recorded_from status xs
recorded_from status (header_del key ∷ xs) = recorded_from status xs
recorded_from status (write bytes ∷ xs) = recorded_from status xs

-- `rec.status` at the end; it starts as 200.
abbrev pub recorded : List Write → ℕ
recorded xs = recorded_from 200 xs

abbrev pub unexpected : Bytes
unexpected = codes "{\"error\":\"internal_error\",\"message\":\"unexpected error\"}"

-- The deferred function of `Recover`.
abbrev pub recovered : Trace → Trace
recovered t = elim t.ending [
  | returned ↦ t
  | panicked m ↦ record { writes = t.writes ++ error_writes unexpected 500; ending = returned }
]

unfoldable pub recover : {S : Type 0} → Handler S → Handler S
recover next r s = let (t, s') = next r s in (recovered t, s')

-- A line of the log, without its time and its duration.
pub record LogLine : Type 0 where
  pub method : Bytes
  pub path : Bytes
  pub status : ℕ

-- The line is written after the handler, and so not when the handler panics.
abbrev pub log_request : Request → Trace → List LogLine → List LogLine
log_request r t log = elim t.ending [
  | returned ↦ record { method = r.method; path = r.path; status = recorded t.writes } ∷ log
  | panicked m ↦ log
]

unfoldable pub request_logging : {S : Type 0} → Handler S → Handler (S × List LogLine)
unfolding recorded_from
request_logging next r (s, log) = let (t, s') = next r s in (t, (s', log_request r t log))

-- `Metrics` of internal/observability/metrics.go, over a registry of Prometheus: a counter by
-- method, path and status, a histogram by method and path, and a gauge.
pub record Metrics (M : Type 0) : Type 0 where
  pub requests_total_inc : Bytes → Bytes → Bytes → M → M
  pub request_duration_observe : Bytes → Bytes → M → M
  pub in_flight_inc : M → M
  pub in_flight_dec : M → M

module _ {M : Type 0} (m : Metrics M) where
  -- What follows the handler, and the deferred decrement, which runs on a panic as well.
  abbrev pub count_request : Request → Trace → M → M
  count_request r t reg = elim t.ending [
    | returned ↦ m.in_flight_dec (
        m.request_duration_observe r.method r.path
          (m.requests_total_inc r.method r.path (write_int (pos (recorded t.writes))) reg))
    | panicked p ↦ m.in_flight_dec reg
  ]

  unfoldable pub metrics : {S : Type 0} → Handler S → Handler (S × M)
  unfolding recorded_from
  metrics next r (s, reg) =
      let started = m.in_flight_inc reg in
      let (t, s') = next r s in (t, (s', count_request r t started))
