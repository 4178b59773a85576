-- ===== src/Maintenance/ExecutionService/Completion.antt =====
-- Which calls of `MarkExecutionCompleted` complete an execution.
use zensor_server.Prelude.{
  ◌≡◌, ◌⊎◌, inl, inr, String, true, false, Bool-cases, Time, Dict, ok, is_ok, Result-cases, arith,
}
use zensor_server.Maintenance.Execution.{
  Execution, is_deleted, is_completed, is_scheduled_in_the_future,
}
use zensor_server.Maintenance.Ports.{ExecutionRepository, ActivityRepository}
use zensor_server.Maintenance.ExecutionService.{mark_execution_completed}

module _ {V : Type 0} where
  -- The execution is open, and its date has come.
  abbrev pub IsDue : Time → Execution V → Type 0
  IsDue now x =
      (is_deleted x ≡ false) × (is_completed x ≡ false) × (is_scheduled_in_the_future x now ≡ false)

-- What the service relies on: after a completion that succeeded, a lookup that answers shows the
-- execution as completed.
pub record CompletionLaws {V S : Type 0} (r : ExecutionRepository V S) : Type 0 where
  pub completion_stored :
      (id by : String) (values : Dict String V) (s : S) {x : Execution V}
      → (r.mark_completed id by values s).0 ≡ ok tt
      → r.get_by_id id (r.mark_completed id by values s).1 ≡ ok x
      → is_completed x ≡ true

module _ {V S : Type 0} (r : ExecutionRepository V S) (activities : ActivityRepository V S) where
  -- A call of `MarkExecutionCompleted` either hands a stored execution that is due to the
  -- repository, and ends with the repository's outcome, or fails and leaves the store alone.
  pub mark_execution_completed_outcome :
      (now : Time) (id by : String) (values : Dict String V) (s : S)
      → let run = mark_execution_completed r activities now id by values s in
        ((x : Execution V) × (r.get_by_id id s ≡ ok x)
          × IsDue now x
          × (run.1 ≡ (r.mark_completed id by values s).1)
          × (is_ok run.0 ≡ is_ok (r.mark_completed id by values s).0))
        ⊎ ((is_ok run.0 ≡ false)
            × (run.1 ≡ s)
            × ((x : Execution V) → r.get_by_id id s ≡ ok x → IsDue now x → ⊥))
  unfolding mark_execution_completed
  mark_execution_completed_outcome now id by values s = elim (Result-cases (r.get_by_id id s)) [
    | inr (_, e) ↦ inr (ground (arith, e), ground (arith, e), λ y f due. ground (arith, e, f))
    | inl (x, e) ↦ elim (Bool-cases (is_deleted x)) [
      | inl gone ↦ inr (
        ground (arith, e, gone),
        ground (arith, e, gone),
        λ y f due. ground (arith, e, f, gone, due),
      )
      | inr live ↦ elim (Bool-cases (is_completed x)) [
        | inl done ↦ inr (
          ground (arith, e, live, done),
          ground (arith, e, live, done),
          λ y f due. ground (arith, e, f, done, due),
        )
        | inr open_ ↦ elim (Bool-cases (is_scheduled_in_the_future x now)) [
          | inl early ↦ inr (
            ground (arith, e, live, open_, early),
            ground (arith, e, live, open_, early),
            λ y f due. ground (arith, e, f, early, due),
          )
          | inr come ↦ inl (
            x,
            e,
            (live, open_, come),
            ground (arith, e, live, open_, come),
            ground (arith, e, live, open_, come),
          )
        ]
      ]
    ]
  ]

  -- Once an execution has been completed, every further call for it fails and leaves the store as
  -- the first one did.
  pub completed_once :
      (laws : CompletionLaws r) (now later : Time) (id by by' : String)
      (values values' : Dict String V) (s : S)
      → (mark_execution_completed r activities now id by values s).0 ≡ ok tt
      → let s' = (mark_execution_completed r activities now id by values s).1 in
        let run = mark_execution_completed r activities later id by' values' s' in
        (is_ok run.0 ≡ false) × (run.1 ≡ s')
  completed_once laws now later id by by' values values' s h =
      elim (mark_execution_completed_outcome now id by values s) [
        | inr (failed, _, _) ↦ absurd (ground (arith, failed, h))
        | inl (x, _, _, stored, outcome) ↦
            let s' = (mark_execution_completed r activities now id by values s).1 in
            elim (mark_execution_completed_outcome later id by' values' s') [
              | inr (failed, kept, _) ↦ (failed, kept)
              | inl (y, found, due, _, _) ↦
                  absurd (ground (arith, due, done y stored outcome found))
            ]
      ]
    where
      done :
          (y : Execution V)
          → (mark_execution_completed r activities now id by values s).1
            ≡ (r.mark_completed id by values s).1
          → is_ok (mark_execution_completed r activities now id by values s).0
            ≡ is_ok (r.mark_completed id by values s).0
          → r.get_by_id id (mark_execution_completed r activities now id by values s).1 ≡ ok y
          → is_completed y ≡ true
      done y stored outcome found =
          laws.completion_stored id by values s (ground (arith, outcome, h)) (rw stored at found)
