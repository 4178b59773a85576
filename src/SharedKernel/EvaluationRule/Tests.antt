-- ===== src/SharedKernel/EvaluationRule/Tests.antt =====
-- Rules of a known and of an unknown kind.
use zensor_server.Prelude.{
  returns, panics, ℕ, String, ◌≡◌, refl, ◌≢◌, ◌↔◌, ok, List, [], ◌∷◌, run_actions,
}
use zensor_server.SharedKernel.EvaluationRule.{Parameter, validator_by_kind, build}
use zensor_server.SharedKernel.EvaluationRule.Kinds.{built, Complete, rule, build_outcome}

abbrev opening : List (Parameter ℕ)
opening = record { key = "start"; value = 8 } ∷ record { key = "task"; value = 1 } ∷ []

accepts_time : built "r1" "open" "time" opening ≡ returns (ok (rule "r1" "open" "time" opening))
unfolding build run_actions validator_by_kind
accepts_time = refl

build_outcome_example :
    ((built "r1" "open" "weekly" opening ≡ panics)
      ↔ ((◌≢◌ {A = String} "weekly" "time") × (◌≢◌ {A = String} "weekly" "threshold")))
    × ((built "r1" "open" "weekly" opening ≡ returns (ok (rule "r1" "open" "weekly" opening)))
        ↔ Complete "weekly" opening)
build_outcome_example = build_outcome "r1" "open" "weekly" opening
