-- ===== src/Server/Stop/Return.antt =====
-- When `main` returns.
use mathlib.Core.List.{append-nil, append_assoc}
use feature_voting_system.Prelude.{
  ℕ, zero, suc, ◌≡◌, refl, sym, ap, ◌∙◌, List, [], ◌∷◌, ◌++◌, Option, codes, Bool, true, false, All,
}
use feature_voting_system.Errors.{Error, prefixed}
use feature_voting_system.Server.Start.{server_closed, failed}
use feature_voting_system.Server.Stop.{
  Happening, listened, signalled, shut, acquires, releases, Act, cancels, shuts_down, ends_shutdown,
  closes_redis, closes_pool, shuts_tracer, cancels_again, Phase, serving, shutting_down, closing,
  returned, Process, process, logged, on_shut, close, one_less, main_step, main_run, start,
}
use feature_voting_system.Server.Stop.Order.{
  calls, errors, errors-append, calls_in, IsHeld, IsInOrder, run-IsInOrder,
}

-- A signal has come.
abbrev pub is_stopping : Phase → Bool
is_stopping serving = false
is_stopping phase = true

close-is_stopping : (held : ℕ) (acts : List Act) → is_stopping (close held acts).phase ≡ true
close-is_stopping zero acts = refl
close-is_stopping (suc held) acts = refl

step-is_stopping :
    (h : Happening) (phase : Phase) (held : ℕ) (acts : List Act)
    → is_stopping phase ≡ true
    → is_stopping (main_step h phase held acts).phase ≡ true
unfolding main_step
step-is_stopping h returned held acts k = refl
step-is_stopping h serving held acts k = cc
step-is_stopping (listened l) shutting_down held acts k = refl
step-is_stopping (listened l) closing held acts k = refl
step-is_stopping signalled shutting_down held acts k = refl
step-is_stopping signalled closing held acts k = refl
step-is_stopping (shut error) shutting_down held acts k = close-is_stopping held _
step-is_stopping (shut error) closing held acts k = refl
step-is_stopping acquires shutting_down held acts k = refl
step-is_stopping acquires closing held acts k = refl
step-is_stopping releases shutting_down held acts k = refl
step-is_stopping releases closing held acts k = close-is_stopping (one_less held) _

run-is_stopping :
    (hs : List Happening) (p : Process)
    → is_stopping p.phase ≡ true
    → is_stopping (main_run hs p).phase ≡ true
unfolding main_run
run-is_stopping [] p k = k
run-is_stopping (h ∷ hs) p k =
    run-is_stopping hs (main_step h p.phase p.held p.acts)
      (step-is_stopping h p.phase p.held p.acts k)

-- So many connections are given back.
abbrev pub all_released : ℕ → List Happening
all_released zero = []
all_released (suc n) = releases ∷ all_released n

drained : (n : ℕ) (acts : List Act) → (main_run (all_released n) (close n acts)).phase ≡ returned
unfolding main_run main_step
drained zero acts = refl
drained (suc zero) acts = refl
drained (suc (suc n)) acts = drained (suc n) acts

finished :
    (error : Option Error) (p : Process)
    → is_stopping p.phase ≡ true
    → IsHeld p.phase p.held
    → (main_run (shut error ∷ all_released p.held) p).phase ≡ returned
finished error p k = by_phase p.phase p.held p.acts k
  where
    by_phase :
        (phase : Phase) (held : ℕ) (acts : List Act)
        → is_stopping phase ≡ true
        → IsHeld phase held
        → (main_run (shut error ∷ all_released held) (process phase held acts)).phase ≡ returned
    by_phase serving held acts k waits = cc
    by_phase shutting_down held acts k waits =
        unfold main_run in unfold main_step in drained held (acts ++ on_shut error)
    by_phase closing zero acts k waits = absurd (waits refl)
    by_phase closing (suc held) acts k waits =
        unfold main_run in unfold main_step in drained (suc held) acts
    by_phase returned held acts k waits = rw waits (unfold main_run in unfold main_step in refl)

abbrev pub is_signal : Happening → Bool
is_signal signalled = true
is_signal happening = false

-- What went wrong with the server.
abbrev pub failures : List Happening → List Error
failures [] = []
failures (listened (failed e) ∷ hs) = prefixed (codes "listen and serve: ") e ∷ failures hs
failures (h ∷ hs) = failures hs

waits :
    (hs : List Happening) (held : ℕ) (acts : List Act)
    → All (λ h. is_signal h ≡ false) hs
    → let p = main_run hs (process serving held acts) in
      (p.phase ≡ serving) × (errors p.acts ≡ errors acts ++ failures hs)
unfolding main_run main_step
waits [] held acts k = (refl, sym (append-nil (errors acts)))
waits (listened server_closed ∷ hs) held acts k =
    let (phase, seen) = waits hs held (acts ++ []) k.1 in
    (phase, seen ∙ ap (λ e. e ++ failures hs) (errors-append acts [] ∙ append-nil (errors acts)))
waits (listened (failed e) ∷ hs) held acts k =
    let more = logged (failed e) in
    let (phase, seen) = waits hs held (acts ++ more) k.1 in
    (
      phase,
      seen
          ∙ ap (λ e. e ++ failures hs) (errors-append acts more)
          ∙ append_assoc (errors acts) (errors more) (failures hs),
    )
waits (signalled ∷ hs) held acts k = absurd (cc)
waits (shut error ∷ hs) held acts k = waits hs held acts k.1
waits (acquires ∷ hs) held acts k = waits hs (suc held) acts k.1
waits (releases ∷ hs) held acts k = waits hs (one_less held) acts k.1

-- Until a signal comes `main` waits, with each error of `ListenAndServe` in its log and nothing
-- called. Whatever happens from the signal on, once net/http's `Shutdown` and then every connection
-- of the pool that is held are done, `main` has returned, and the context was cancelled, the server
-- shut down, and Redis, the pool and the tracer were closed in this order; while a connection is
-- held behind the shutdown, `main` does not return.
pub main-returned_lem :
    (before after : List Happening) (error : Option Error)
    → All (λ h. is_signal h ≡ false) before
    → let p = main_run before start in
      let q = main_run (signalled ∷ after) p in
      let r = main_run (shut error ∷ all_released q.held) q in
      (p.phase ≡ serving)
      × (errors p.acts ≡ failures before)
      × (calls p.acts ≡ [])
      × IsInOrder q
      × (r.phase ≡ returned)
      × (calls r.acts
          ≡ cancels ∷ shuts_down ∷ ends_shutdown ∷ closes_redis ∷ closes_pool ∷ shuts_tracer
            ∷ cancels_again ∷ [])
main-returned_lem before after error k =
    let p = main_run before start in
    let q = main_run (signalled ∷ after) p in
    let r = main_run (shut error ∷ all_released q.held) q in
    let (phase, seen) = waits before 0 [] k in
    let p_ordered = run-IsInOrder before start (refl, tt) in
    let q_ordered = run-IsInOrder (signalled ∷ after) p p_ordered in
    let r_ordered = run-IsInOrder (shut error ∷ all_released q.held) q q_ordered in
    let done = finished error q (signal_stops after p phase) q_ordered.1 in
    (phase, seen, p_ordered.0 ∙ ap calls_in phase, q_ordered, done, r_ordered.0 ∙ ap calls_in done)
  where
    signal_stops :
        (after : List Happening) (p : Process)
        → p.phase ≡ serving
        → is_stopping (main_run (signalled ∷ after) p).phase ≡ true
    signal_stops after p phase =
        unfold main_run in
        run-is_stopping after (main_step signalled p.phase p.held p.acts)
          (rw phase (unfold main_step in refl))
