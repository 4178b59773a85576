-- ===== src/ControlPlane/CommandWorker/Release.antt =====
-- Which commands the tick releases.
use zensor_server.Prelude.{
  ◌≤◌, ◌≡◌, refl, sym, ◌∙◌, inl, inr, true, Bool-cases, List, [], ◌∷◌, All, Time, after,
  if◌then◌else◌, Result, ok, err, Result-cases, arith,
}
use zensor_server.SharedKernel.Command.{Command}
use zensor_server.ControlPlane.CommandWorker.{
  CommandRepository, World, released_if_ok, handle, handle_all, reconciliation,
}

-- A command may be released at an instant: it is marked as ready and its time has come.
abbrev pub IsReleasable : Time → Command → Type 0
IsReleasable now cmd = (cmd.ready ≡ true) × (cmd.dispatch_after ≤ now)

-- The updated commands that a run has to release: those whose time has come.
abbrev pub due : Time → List Command → List Command
due now [] = []
due now (cmd ∷ cmds) =
    let rest = due now cmds in
    if after cmd.dispatch_after now then rest else record cmd { ready = true } ∷ rest

abbrev pub reversed_onto : List Command → List Command → List Command
reversed_onto [] released = released
reversed_onto (cmd ∷ cmds) released = reversed_onto cmds (cmd ∷ released)

module _ {S : Type 0} (r : CommandRepository S) where
  released-All :
      (now : Time) (cmd : Command) (p : Result (Unit {0}) × S) (w : World S)
      → IsReleasable now cmd
      → All (IsReleasable now) w.released
      → All (IsReleasable now) (released_if_ok r cmd p w).released
  released-All now cmd (ok _, s) w h k = (h, k)
  released-All now cmd (err _, s) w h k = k

  handle-All :
      (now : Time) (cmd : Command) (w : World S)
      → All (IsReleasable now) w.released
      → All (IsReleasable now) (handle r now cmd w).released
  unfolding handle
  handle-All now cmd w h = elim (Bool-cases (after cmd.dispatch_after now)) [
    | inl later ↦ rw (later, handle) h
    | inr come ↦
        rw (come, handle)
          (released-All now (record cmd { ready = true })
            (r.update (record cmd { ready = true }) w.store) w (refl, ground (arith, come)) h)
  ]

  handle_all-All :
      (now : Time) (cmds : List Command) (w : World S)
      → All (IsReleasable now) w.released
      → All (IsReleasable now) (handle_all r now cmds w).released
  unfolding handle_all
  handle_all-All now [] w h = h
  handle_all-All now (cmd ∷ cmds) w h =
      handle_all-All now cmds (handle r now cmd w) (handle-All now cmd w h)

  -- A tick releases no command before its time, and every command that it releases is marked as
  -- ready, whatever fails in it.
  pub reconciliation_releases_due :
      (now : Time) (w : World S)
      → w.released ≡ []
      → All (IsReleasable now) (reconciliation r now w).released
  unfolding reconciliation
  reconciliation_releases_due now w fresh = elim (Result-cases (r.find_all_pending w.store)) [
    | inr (_, e) ↦ rw (e, reconciliation, fresh) tt
    | inl (cmds, e) ↦ rw (e, reconciliation) (handle_all-All now cmds w (rw fresh tt))
  ]

  released-ok :
      (cmd : Command) (p : Result (Unit {0}) × S) (w : World S)
      → p.0 ≡ ok tt
      → (released_if_ok r cmd p w).released ≡ cmd ∷ w.released
  released-ok cmd (ok _, s) w h = refl
  released-ok cmd (err _, s) w h = cc

  handle-due :
      (now : Time) (cmd : Command) (cmds : List Command) (w : World S)
      → ((x : Command) (s : S) → (r.update x s).0 ≡ ok tt)
      → reversed_onto (due now (cmd ∷ cmds)) w.released
        ≡ reversed_onto (due now cmds) (handle r now cmd w).released
  unfolding handle
  handle-due now cmd cmds w works =
      let x = record cmd { ready = true } in
      elim (Bool-cases (after cmd.dispatch_after now)) [
        | inl later ↦ rw (later, handle)
        | inr come ↦ rw (come, handle, released-ok x (r.update x w.store) w (works x w.store))
      ]

  handle_all-due :
      (now : Time) (cmds : List Command) (w : World S)
      → ((x : Command) (s : S) → (r.update x s).0 ≡ ok tt)
      → (handle_all r now cmds w).released ≡ reversed_onto (due now cmds) w.released
  unfolding handle_all
  handle_all-due now [] w works = refl
  handle_all-due now (cmd ∷ cmds) w works =
      handle_all-due now cmds (handle r now cmd w) works ∙ sym (handle-due now cmd cmds w works)

  -- When no update fails, a tick releases exactly those of the pending commands whose time has come,
  -- each once and in their order.
  pub reconciliation_releases_all :
      (now : Time) (cmds : List Command) (w : World S)
      → r.find_all_pending w.store ≡ ok cmds
      → ((x : Command) (s : S) → (r.update x s).0 ≡ ok tt)
      → (reconciliation r now w).released ≡ reversed_onto (due now cmds) w.released
  unfolding reconciliation
  reconciliation_releases_all now cmds w found works =
      rw (found, reconciliation) (handle_all-due now cmds w works)
