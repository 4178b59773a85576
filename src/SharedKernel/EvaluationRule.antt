-- ===== src/SharedKernel/EvaluationRule.antt =====
-- internal/shared_kernel/domain/evaluation_rule.go, and the addition of a rule in
-- internal/control_plane/usecases/evaluation_rule_service.go. `V` is the type of the values, and a call of
-- a nil function is the outcome `panics`.
pub mod Kinds
mod Tests
use zensor_server.Prelude.{
  ℕ, String, Bool, true, false, ◌&&◌, Option, none, some, List, [], ◌∷◌, ◌++◌, contains_func, ◌==◌,
  string_eq, if◌then◌else◌, Result, ok, err, Outcome, returns, panics, sentinel, wrap_error, Action,
  invalid_parameters, run_actions,
}

pub record Parameter (V : Type 0) : Type 0 where
  pub key : String
  pub value : V

pub record EvaluationRule (V : Type 0) : Type 0 where
  pub id : String
  pub version : ℕ
  pub description : String
  pub kind : String
  pub parameters : List (Parameter V)
  pub enabled : Bool

module _ {V : Type 0} where
  unfoldable pub add_parameters : List (Parameter V) → EvaluationRule V → EvaluationRule V
  add_parameters params r = record r { parameters = r.parameters ++ params }

  -- The handlers of `evaluationRuleBuilder`.
  abbrev pub with_description : String → EvaluationRule V → Result (EvaluationRule V)
  with_description value r = ok (record r { description = value })

  abbrev pub with_kind : String → EvaluationRule V → Result (EvaluationRule V)
  with_kind value r = ok (record r { kind = value })

  abbrev pub with_parameters : List (Parameter V) → EvaluationRule V → Result (EvaluationRule V)
  with_parameters value r = ok (record r { parameters = value })

  -- `SomeHasFieldWithValue(params, "Key", key)`
  abbrev pub has_key : String → List (Parameter V) → Bool
  has_key key params = contains_func (λ p. p.key == key) params

  unfoldable pub validator_by_kind : String → Option (List (Parameter V) → Bool)
  validator_by_kind kind =
      if kind == "time"
      then some (λ params. has_key "start" params && has_key "task" params)
      else if kind == "threshold"
      then some (λ params.
        has_key "metric" params
        && has_key "lower_threshold" params
        && has_key "upper_threshold" params)
      else none

  -- The call of the validator; that of a kind without one is nil.
  abbrev pub validated :
      Option (List (Parameter V) → Bool) → EvaluationRule V → Outcome (EvaluationRule V)
  validated none r = panics
  validated (some valid) r =
      if valid r.parameters then returns (ok r) else returns (err (sentinel invalid_parameters))

  abbrev pub finish : Result (EvaluationRule V) → Outcome (EvaluationRule V)
  finish (err e) = returns (err e)
  finish (ok r) = validated (validator_by_kind r.kind) r

  -- `Build`, with the generated identifier.
  unfoldable pub build :
      String → List (EvaluationRule V → Result (EvaluationRule V)) → Outcome (EvaluationRule V)
  build uuid actions = finish (
      run_actions actions (record {
        id = uuid;
        version = 0;
        description = "";
        kind = "";
        parameters = [];
        enabled = true;
      }))

  -- `AddToDevice` of the service, over that of the repository.
  unfoldable pub add_to_device :
      {S : Type 0}
      → (EvaluationRule V → Action S (Unit {0}))
      → EvaluationRule V
      → Action S (Unit {0})
  add_to_device add rule s =
      let (result, s') = add rule s in (wrap_error "adding evaluation rule to device" result, s')
