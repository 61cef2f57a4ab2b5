-- ===== src/Reviewbot/Store/Reachable.antt =====
-- Every database that calls of `QueueStore` reach from an empty one is sound.
use oh_my_robot.Prelude.{
  ℕ, Text, Bool, true, false, Option, none, some, List, [], ◌∷◌, ◌≡◌, refl, arith,
}
use oh_my_robot.Prelude.Int.{ℤ}
use oh_my_robot.Reviewbot.Models.{EventRecord, ReviewFinding, is_running}
use oh_my_robot.Reviewbot.Store.{Store}
use oh_my_robot.Reviewbot.Store.Queue.{has_id, running_id}
use oh_my_robot.Reviewbot.Store.Outcomes.{failed_row, recovered}
use oh_my_robot.Reviewbot.Store.Reviews.{sync_if}
use oh_my_robot.Reviewbot.Store.Findings.{sync_findings}
use oh_my_robot.Reviewbot.Store.Runs.{
  Op, start, submit, supersede, claim, succeed, skip, mark_old, fail, requeue, reviewed, metrics,
  attempt, omp_execution, complete, step, run, empty,
}
use oh_my_robot.Reviewbot.Store.Sound.{
  IsSound, update-IsSound, insert_event-IsSound, supersede_and_enqueue-IsSound, claim_next-IsSound,
}

failed_row-idle :
    (now : ℕ) (error : Text) (retry : Bool) (after : Option ℤ) (kind : Option Text)
    (e : EventRecord)
    → ((failed_row now error retry after kind e).delivery_id ≡ e.delivery_id)
      × (is_running (failed_row now error retry after kind e).state ≡ false)
unfolding failed_row
failed_row-idle now error true after kind e = (refl, refl)
failed_row-idle now error false after kind e = (refl, refl)

module _ (digest : Text × Text × Text × Text → Text) where
  sync_if-events :
      (now : ℕ) (repo : Text) (number : ℕ) (sha : Text) (findings : Option (List ReviewFinding))
      (paths : Option (List Text)) (s : Store)
      → (sync_if digest now repo number sha findings paths s).events ≡ s.events
  unfolding sync_if sync_findings
  sync_if-events now repo number sha none paths s = refl
  sync_if-events now repo number sha (some f) paths s = refl

  -- Every method keeps the invariant.
  pub step-IsSound :
      (now : ℕ) (op : Op) (s : Store) → IsSound s.events → IsSound (step digest now op s).events
  unfolding step
  step-IsSound now start s v =
      update-IsSound (λ e. is_running e.state) (recovered now) s.events (λ e. refl) (λ e. refl) v
  step-IsSound now (submit job source from) s v = insert_event-IsSound now job source from s v
  step-IsSound now (supersede id reason job) s v =
      supersede_and_enqueue-IsSound now id reason job s v
  step-IsSound now claim s v = claim_next-IsSound now s v
  step-IsSound now (succeed id) s v =
      update-IsSound (has_id id) _ s.events (λ e. refl) (λ e. refl) v
  step-IsSound now (skip id reason) s v =
      update-IsSound (has_id id) _ s.events (λ e. refl) (λ e. refl) v
  step-IsSound now (mark_old id reason) s v =
      update-IsSound (has_id id) _ s.events (λ e. refl) (λ e. refl) v
  step-IsSound now (fail id error retry after kind) s v =
      update-IsSound (has_id id) (failed_row now error retry after kind) s.events
        (λ e. (failed_row-idle now error retry after kind e).0)
        (λ e. (failed_row-idle now error retry after kind e).1) v
  step-IsSound now (requeue id error kind) s v =
      update-IsSound (running_id id) _ s.events (λ e. refl) (λ e. refl) v
  step-IsSound now (reviewed repo number sha comment) s v = v
  step-IsSound now (metrics m) s v = v
  step-IsSound now (attempt m) s v = v
  step-IsSound now (omp_execution id repo number sha session audit) s v = v
  step-IsSound now (complete repo number sha comment m findings paths) s v =
      update-IsSound (has_id m.delivery_id) _ _ (λ e. refl) (λ e. refl)
        (rw (sync_if-events now repo number sha findings paths s) v)

  run-IsSound :
      (ops : List (ℕ × Op)) (s : Store) → IsSound s.events → IsSound (run digest ops s).events
  unfolding run
  run-IsSound [] s v = v
  run-IsSound ((now, op) ∷ ops) s v =
      run-IsSound ops (step digest now op s) (step-IsSound now op s v)

  -- After any calls of the store's methods, at any times, on an empty database, no two events
  -- share a delivery id and no Pull Request has two running events.
  pub run-empty-IsSound : (ops : List (ℕ × Op)) → IsSound (run digest ops empty).events
  run-empty-IsSound ops = run-IsSound ops empty (omega arith)
