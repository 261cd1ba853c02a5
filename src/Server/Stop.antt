-- ===== src/Server/Stop.antt =====
-- The end of cmd/server/main.go, from the listening server to the return of `main`, and `Shutdown`
-- of internal/platform/server.go.
pub mod Order
pub mod Return
use feature_voting_system.Prelude.{
  ℕ, zero, suc, List, [], ◌∷◌, ◌++◌, Option, none, some, Bytes, codes,
}
use feature_voting_system.Errors.{Error, ok, err}
use feature_voting_system.Server.Start.{Listening, listen_and_serve}

-- `ListenAndServe` of net/http ends in its goroutine; SIGTERM or SIGINT arrives; `Shutdown` of
-- net/http returns, with an error where its 30 seconds are over; a handler or a job takes a
-- connection of the pool, or gives one back.
pub data Happening : Type 0 where
  listened : Listening → Happening
  signalled : Happening
  shut : Option Error → Happening
  acquires releases : Happening

-- What `main` and its goroutine do that others see, but for the line which says that the server
-- starts; the last five are calls that were deferred.
pub data Act : Type 0 where
  logs_error : Bytes → Error → Act
  logs_info : Bytes → Act
  cancels shuts_down : Act
  ends_shutdown closes_redis closes_pool shuts_tracer cancels_again : Act

-- `main` waits for a signal, for `Shutdown`, or for `pool.Close`, or it has returned.
pub data Phase : Type 0 where
  serving shutting_down closing returned : Phase

-- `held` connections of the pool are in use.
pub record Process : Type 0 where
  pub phase : Phase
  pub held : ℕ
  pub acts : List Act

abbrev pub process : Phase → ℕ → List Act → Process
process phase held acts = record { phase = phase; held = held; acts = acts }

-- The body of the goroutine.
abbrev pub logged : Listening → List Act
logged l = elim (listen_and_serve l) [
  | ok _ ↦ []
  | err e ↦ logs_error (codes "server error") e ∷ []
]

-- `Server.Shutdown`, up to what it waits for.
abbrev pub shut_down : List Act
shut_down = logs_info (codes "server shutting down") ∷ shuts_down ∷ []

-- `main` from the signal to there.
abbrev pub on_signal : List Act
on_signal = cancels ∷ shut_down

abbrev pub shutdown_error : Option Error → List Act
shutdown_error none = []
shutdown_error (some e) = logs_error (codes "graceful shutdown failed") e ∷ []

-- `main` from there to `pool.Close()`: the deferred calls come in the reverse order.
abbrev pub on_shut : Option Error → List Act
on_shut error =
    shutdown_error error
    ++ (logs_info (codes "server stopped") ∷ ends_shutdown ∷ closes_redis ∷ closes_pool ∷ [])

-- `pool.Close()` returns when no connection is held any more; then come the other deferred calls.
abbrev pub close : ℕ → List Act → Process
close zero acts = process returned 0 (acts ++ (shuts_tracer ∷ cancels_again ∷ []))
close (suc held) acts = process closing (suc held) acts

abbrev pub one_less : ℕ → ℕ
one_less zero = zero
one_less (suc held) = held

-- A closing pool gives no connection, and a process whose `main` has returned does nothing.
pub main_step : Happening → Phase → ℕ → List Act → Process
main_step happening returned held acts = process returned held acts
main_step (listened l) phase held acts = process phase held (acts ++ logged l)
main_step signalled serving held acts = process shutting_down held (acts ++ on_signal)
main_step signalled phase held acts = process phase held acts
main_step (shut error) shutting_down held acts = close held (acts ++ on_shut error)
main_step (shut error) phase held acts = process phase held acts
main_step acquires closing held acts = process closing held acts
main_step acquires phase held acts = process phase (suc held) acts
main_step releases closing held acts = close (one_less held) acts
main_step releases phase held acts = process phase (one_less held) acts

-- What happens, one after the other.
pub main_run : List Happening → Process → Process
unfolding main_step
main_run [] p = p
main_run (h ∷ later) p = main_run later (main_step h p.phase p.held p.acts)

-- The server has been started.
abbrev pub start : Process
start = process serving 0 []
