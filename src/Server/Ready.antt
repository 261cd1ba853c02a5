-- ===== src/Server/Ready.antt =====
-- The readiness probe.
use feature_voting_system.Prelude.{◌≡◌, ◌↔◌, Option, none, some, arith}
use feature_voting_system.Errors.{Error}
use feature_voting_system.Server.{readyz}

-- The probe answers 200 exactly when both stores answer.
pub readyz_status :
    (postgres redis : Option Error)
    → ((readyz postgres redis).status ≡ 200) ↔ ((postgres ≡ none) × (redis ≡ none))
readyz_status none none = ground arith
readyz_status none (some e) = ground arith
readyz_status (some e) redis = ground arith
