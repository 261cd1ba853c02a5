-- ===== src/Server/Stop/Order.antt =====
-- What `main` does on its way, in which order.
use feature_voting_system.Prelude.{
  ℕ, zero, suc, ◌≡◌, ◌≢◌, refl, ap, ◌∙◌, List, [], ◌∷◌, ◌++◌, Option, none, some, arith,
}
use feature_voting_system.Errors.{Error}
use feature_voting_system.Server.Start.{Listening, server_closed, failed}
use feature_voting_system.Server.Stop.{
  Happening, listened, signalled, shut, acquires, releases, Act, logs_error, logs_info, cancels,
  shuts_down, ends_shutdown, closes_redis, closes_pool, shuts_tracer, cancels_again, Phase, serving,
  shutting_down, closing, returned, Process, process, logged, on_signal, on_shut, close, one_less,
  main_step, main_run,
}

-- The acts but for lines of the log.
abbrev pub calls : List Act → List Act
calls [] = []
calls (logs_error m e ∷ acts) = calls acts
calls (logs_info m ∷ acts) = calls acts
calls (act ∷ acts) = act ∷ calls acts

-- The errors that were logged.
abbrev pub errors : List Act → List Error
errors [] = []
errors (logs_error m e ∷ acts) = e ∷ errors acts
errors (act ∷ acts) = errors acts

calls-append : (a b : List Act) → calls (a ++ b) ≡ calls a ++ calls b
calls-append [] b = refl
calls-append (logs_error m e ∷ a) b = calls-append a b
calls-append (logs_info m ∷ a) b = calls-append a b
calls-append (cancels ∷ a) b = ap (λ t. cancels ∷ t) (calls-append a b)
calls-append (shuts_down ∷ a) b = ap (λ t. shuts_down ∷ t) (calls-append a b)
calls-append (ends_shutdown ∷ a) b = ap (λ t. ends_shutdown ∷ t) (calls-append a b)
calls-append (closes_redis ∷ a) b = ap (λ t. closes_redis ∷ t) (calls-append a b)
calls-append (closes_pool ∷ a) b = ap (λ t. closes_pool ∷ t) (calls-append a b)
calls-append (shuts_tracer ∷ a) b = ap (λ t. shuts_tracer ∷ t) (calls-append a b)
calls-append (cancels_again ∷ a) b = ap (λ t. cancels_again ∷ t) (calls-append a b)

pub errors-append : (a b : List Act) → errors (a ++ b) ≡ errors a ++ errors b
errors-append [] b = refl
errors-append (logs_error m e ∷ a) b = ap (λ t. e ∷ t) (errors-append a b)
errors-append (logs_info m ∷ a) b = errors-append a b
errors-append (cancels ∷ a) b = errors-append a b
errors-append (shuts_down ∷ a) b = errors-append a b
errors-append (ends_shutdown ∷ a) b = errors-append a b
errors-append (closes_redis ∷ a) b = errors-append a b
errors-append (closes_pool ∷ a) b = errors-append a b
errors-append (shuts_tracer ∷ a) b = errors-append a b
errors-append (cancels_again ∷ a) b = errors-append a b

logged-calls : (l : Listening) → calls (logged l) ≡ []
logged-calls server_closed = refl
logged-calls (failed e) = refl

on_shut-calls :
    (error : Option Error) → calls (on_shut error) ≡ ends_shutdown ∷ closes_redis ∷ closes_pool ∷ []
on_shut-calls none = refl
on_shut-calls (some e) = refl

abbrev pub calls_in : Phase → List Act
calls_in serving = []
calls_in shutting_down = cancels ∷ shuts_down ∷ []
calls_in closing = cancels ∷ shuts_down ∷ ends_shutdown ∷ closes_redis ∷ closes_pool ∷ []
calls_in returned =
    cancels ∷ shuts_down ∷ ends_shutdown ∷ closes_redis ∷ closes_pool ∷ shuts_tracer ∷ cancels_again
    ∷ []

-- `main` waits for the pool while a connection is held, and has returned when none is.
abbrev pub IsHeld : Phase → ℕ → Type 0
IsHeld closing held = held ≢ 0
IsHeld returned held = held ≡ 0
IsHeld phase held = Unit

abbrev pub IsInOrder : Process → Type 0
IsInOrder p = (calls p.acts ≡ calls_in p.phase) × IsHeld p.phase p.held

close-IsInOrder :
    (held : ℕ) (acts : List Act) → calls acts ≡ calls_in closing → IsInOrder (close held acts)
close-IsInOrder zero acts h =
    (calls-append acts _ ∙ ap (λ c. c ++ (shuts_tracer ∷ cancels_again ∷ [])) h, refl)
close-IsInOrder (suc held) acts h = (h, ground arith)

step-IsInOrder :
    (h : Happening) (phase : Phase) (held : ℕ) (acts : List Act)
    → IsInOrder (process phase held acts)
    → IsInOrder (main_step h phase held acts)
unfolding main_step
step-IsInOrder h returned held acts k = k
step-IsInOrder (listened l) serving held acts k = (
  calls-append acts (logged l) ∙ ap (λ c. calls acts ++ c) (logged-calls l) ∙ ground (arith, k),
  tt,
)
step-IsInOrder (listened l) shutting_down held acts k = (
  calls-append acts (logged l) ∙ ap (λ c. calls acts ++ c) (logged-calls l) ∙ ground (arith, k),
  tt,
)
step-IsInOrder (listened l) closing held acts k = (
  calls-append acts (logged l) ∙ ap (λ c. calls acts ++ c) (logged-calls l) ∙ ground (arith, k),
  k.1,
)
step-IsInOrder signalled serving held acts k =
    (calls-append acts on_signal ∙ ap (λ c. c ++ calls on_signal) k.0, tt)
step-IsInOrder signalled shutting_down held acts k = k
step-IsInOrder signalled closing held acts k = k
step-IsInOrder (shut error) serving held acts k = k
step-IsInOrder (shut error) shutting_down held acts k =
    close-IsInOrder held (acts ++ on_shut error) (
      calls-append acts (on_shut error)
      ∙ ap (λ c. calls acts ++ c) (on_shut-calls error)
      ∙ ap (λ c. c ++ (ends_shutdown ∷ closes_redis ∷ closes_pool ∷ [])) k.0)
step-IsInOrder (shut error) closing held acts k = k
step-IsInOrder acquires serving held acts k = k
step-IsInOrder acquires shutting_down held acts k = k
step-IsInOrder acquires closing held acts k = k
step-IsInOrder releases serving held acts k = k
step-IsInOrder releases shutting_down held acts k = k
step-IsInOrder releases closing held acts k = close-IsInOrder (one_less held) acts k.0

pub run-IsInOrder : (hs : List Happening) (p : Process) → IsInOrder p → IsInOrder (main_run hs p)
unfolding main_run
run-IsInOrder [] p k = k
run-IsInOrder (h ∷ hs) p k =
    run-IsInOrder hs (main_step h p.phase p.held p.acts) (step-IsInOrder h p.phase p.held p.acts k)
