-- ===== src/Prelude/Builder.antt =====
-- The builders of the domain packages: a list of handlers, each of which sets a field of the value
-- under construction or fails, run in order by `Build`.
use mathlib.Core.List.{List, [], ◌∷◌}
use zensor_server.Prelude.Errors.{Result, ok, err}

module _ {ℓ} {A : Type ℓ} where
  -- The loop `for _, a := range b.actions`, which returns at the first error.
  unfoldable pub run_actions : List (A → Result A) → A → Result A
  run_actions [] value = ok value
  run_actions (action ∷ actions) value = elim (action value) [
    | ok value' ↦ run_actions actions value'
    | err e ↦ err e
  ]
