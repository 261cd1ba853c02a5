-- ===== src/Tests/Stopping.antt =====
-- A server whose port is taken, and a signal later, while two connections of the pool are in use.
use feature_voting_system.Prelude.{◌≡◌, refl, List, [], ◌∷◌, some, codes}
use feature_voting_system.Errors.{plain}
use feature_voting_system.Server.Start.{failed}
use feature_voting_system.Server.Stop.{
  Happening, listened, signalled, shut, acquires, cancels, shuts_down, ends_shutdown, closes_redis,
  closes_pool, shuts_tracer, cancels_again, serving, returned, main_run, start,
}
use feature_voting_system.Server.Stop.Order.{calls, errors, IsInOrder}
use feature_voting_system.Server.Stop.Return.{all_released, failures, main-returned_lem}

abbrev before : List Happening
before = acquires ∷ listened (failed (plain (codes "address already in use"))) ∷ []

main-returned_lem_example :
    let late = some (plain (codes "context deadline exceeded")) in
    let p = main_run before start in
    let q = main_run (signalled ∷ acquires ∷ []) p in
    let r = main_run (shut late ∷ all_released q.held) q in
    (p.phase ≡ serving)
    × (errors p.acts ≡ failures before)
    × (calls p.acts ≡ [])
    × IsInOrder q
    × (r.phase ≡ returned)
    × (calls r.acts
        ≡ cancels ∷ shuts_down ∷ ends_shutdown ∷ closes_redis ∷ closes_pool ∷ shuts_tracer
          ∷ cancels_again ∷ [])
main-returned_lem_example =
    main-returned_lem before (acquires ∷ []) (some (plain (codes "context deadline exceeded")))
      (refl, (refl, tt))
