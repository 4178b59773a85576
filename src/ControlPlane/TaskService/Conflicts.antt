-- ===== src/ControlPlane/TaskService/Conflicts.antt =====
-- The tasks that are refused.
use zensor_server.Prelude.{
  ◌≡◌, refl, ◌↔◌, inl, inr, true, false, Bool-cases, List, [], ◌∷◌, All, contains_func,
  if◌then◌else◌, ok, is_ok, Result-cases, arith,
}
use zensor_server.SharedKernel.Command.{Command, overlaps_with}
use zensor_server.ControlPlane.TaskService.{
  TaskPorts, check_overlaps, validate_command_overlaps, create,
}

-- No command of the second list overlaps with one of the first.
abbrev pub IsDisjoint : List Command → List Command → Type 0
IsDisjoint pending cmds = All (λ cmd. All (λ q. overlaps_with cmd q ≡ false) pending) cmds

contains_func-All :
    (cmd : Command) (pending : List Command)
    → contains_func (overlaps_with cmd) pending ≡ false
    → All (λ q. overlaps_with cmd q ≡ false) pending
contains_func-All cmd [] h = tt
contains_func-All cmd (q ∷ pending) h =
    (ground (arith, h), contains_func-All cmd pending (ground (arith, h)))

check_overlaps-ok :
    (pending cmds : List Command) → check_overlaps pending cmds ≡ ok tt → IsDisjoint pending cmds
unfolding check_overlaps
check_overlaps-ok pending [] h = tt
check_overlaps-ok pending (cmd ∷ cmds) h =
    elim (Bool-cases (contains_func (overlaps_with cmd) pending)) [
      | inl hit ↦ absurd (ground (arith, hit, h))
      | inr miss ↦ (
        contains_func-All cmd pending miss,
        check_overlaps-ok pending cmds (ground (arith, miss, h)),
      )
    ]

contains_func-none :
    (cmd : Command) (pending : List Command)
    → All (λ q. overlaps_with cmd q ≡ false) pending
    → contains_func (overlaps_with cmd) pending ≡ false
contains_func-none cmd [] h = refl
contains_func-none cmd (q ∷ pending) h = ground (arith, h.0, contains_func-none cmd pending h.1)

check_overlaps-of_disjoint :
    (pending cmds : List Command) → IsDisjoint pending cmds → check_overlaps pending cmds ≡ ok tt
unfolding check_overlaps
check_overlaps-of_disjoint pending [] h = refl
check_overlaps-of_disjoint pending (cmd ∷ cmds) h =
    ground (arith, contains_func-none cmd pending h.0, check_overlaps-of_disjoint pending cmds h.1)

module _ {T S : Type 0} (p : TaskPorts T S) where
  -- When the repositories answer, `Create` accepts exactly the tasks none of whose commands overlaps
  -- with a pending command of the device; an accepted task leaves the store that the repository
  -- made, and a task that is not accepted leaves the store alone.
  pub create_iff :
      (task : T) (s : S) (pending : List Command)
      → p.find_pending_by_device (p.device_id task) s ≡ ok pending
      → (p.create task s).0 ≡ ok tt
      → ((is_ok (create p task s).0 ≡ true) ↔ IsDisjoint pending (p.commands task))
        × ((create p task s).1 ≡ (if is_ok (create p task s).0 then (p.create task s).1 else s))
  unfolding create validate_command_overlaps
  create_iff task s pending found works =
      elim (Result-cases (check_overlaps pending (p.commands task))) [
        | inl (_, e) ↦ (
          (
            λ _. check_overlaps-ok pending (p.commands task) e,
            λ _. ground (arith, found, e, works),
          ),
          ground (arith, found, e, works),
        )
        | inr (_, e) ↦ (
          (
            λ accepted. absurd (ground (arith, found, e, accepted)),
            λ disjoint.
                absurd (
                  ground (arith, e, check_overlaps-of_disjoint pending (p.commands task) disjoint)),
          ),
          ground (arith, found, e),
        )
      ]
