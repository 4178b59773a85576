-- ===== src/SharedKernel/EvaluationRule/Kinds.antt =====
-- The kinds of rules that `Build` knows.
use zensor_server.Prelude.{
  Outcome, returns, panics, String, true, false, ◌&&◌, ◌≡◌, refl, ◌≢◌, ◌⊎◌, ◌↔◌, inl, inr,
  Bool-cases, List, [], ◌∷◌, ◌==◌, ==_iff, string_eq, if◌then◌else◌, ok, err, sentinel,
  invalid_parameters, run_actions, arith,
}
use zensor_server.SharedKernel.EvaluationRule.{
  Parameter, EvaluationRule, with_description, with_kind, with_parameters, has_key,
  validator_by_kind, validated, build,
}

time_threshold : (kind : String) → kind ≡ "time" → (kind == "threshold") ≡ false
time_threshold kind e = rw e

module _ {V : Type 0} where
  -- The call of the controller that creates a rule.
  abbrev pub built : String → String → String → List (Parameter V) → Outcome (EvaluationRule V)
  built uuid description kind params =
      build uuid (with_description description ∷ with_kind kind ∷ with_parameters params ∷ [])

  -- The parameters that a kind asks for.
  abbrev pub Complete : String → List (Parameter V) → Type 0
  Complete kind params =
      ((kind ≡ "time") × (has_key "start" params ≡ true) × (has_key "task" params ≡ true))
      ⊎ ((kind ≡ "threshold")
          × (has_key "metric" params ≡ true)
          × (has_key "lower_threshold" params ≡ true)
          × (has_key "upper_threshold" params ≡ true))

  abbrev pub rule : String → String → String → List (Parameter V) → EvaluationRule V
  rule uuid description kind params = record {
    id = uuid;
    version = 0;
    description = description;
    kind = kind;
    parameters = params;
    enabled = true;
  }

  built-validated :
      (uuid description kind : String) (params : List (Parameter V))
      → built uuid description kind params
        ≡ validated (validator_by_kind kind) (rule uuid description kind params)
  unfolding build run_actions
  built-validated uuid description kind params = refl

  by_kind :
      (uuid description kind : String) (params : List (Parameter V))
      → built uuid description kind params ≡ (
          if kind == "time"
          then (if has_key "start" params && has_key "task" params
              then returns (ok (rule uuid description kind params))
              else returns (err (sentinel invalid_parameters)))
          else if kind == "threshold"
          then (if has_key "metric" params
                && has_key "lower_threshold" params
                && has_key "upper_threshold" params
              then returns (ok (rule uuid description kind params))
              else returns (err (sentinel invalid_parameters)))
          else panics)
  unfolding validator_by_kind
  by_kind uuid description kind params = elim (Bool-cases (kind == "time")) [
    | inl e ↦ rw (built-validated uuid description kind params, e)
    | inr e ↦ elim (Bool-cases (kind == "threshold")) [
      | inl f ↦ rw (built-validated uuid description kind params, e, f)
      | inr f ↦ rw (built-validated uuid description kind params, e, f)
    ]
  ]

  -- `Build` of a rule with a description, a kind and parameters panics exactly if the kind is
  -- neither "time" nor "threshold", and returns a rule exactly if it has the parameters that its
  -- kind asks for.
  pub build_outcome :
      (uuid description kind : String) (params : List (Parameter V))
      → ((built uuid description kind params ≡ panics) ↔ ((kind ≢ "time") × (kind ≢ "threshold")))
        × ((built uuid description kind params ≡ returns (ok (rule uuid description kind params)))
            ↔ Complete kind params)
  build_outcome uuid description kind params =
      let facts = by_kind uuid description kind params in
      let time = ==_iff kind "time" in
      let threshold = ==_iff kind "threshold" in
      let apart = time_threshold kind in
      (
        (
          ground (arith, facts, time, threshold, apart),
          ground (arith, facts, time, threshold, apart),
        ),
        (
          ground (arith, facts, time, threshold, apart),
          ground (arith, facts, time, threshold, apart),
        ),
      )
