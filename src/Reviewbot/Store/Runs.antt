-- ===== src/Reviewbot/Store/Runs.antt =====
-- Sequences of calls of `QueueStore`: the service, the worker and the administrator call its
-- methods in any order, each at a time of its own.
use oh_my_robot.Prelude.{ℕ, Text, Bool, Option, none, some, List, [], ◌∷◌}
use oh_my_robot.Prelude.Int.{ℤ}
use oh_my_robot.Reviewbot.Models.{EventSource, ReviewJob, ReviewFinding, ToolAudit}
use oh_my_robot.Reviewbot.Store.{Store, ReviewMetrics, AttemptMetrics}
use oh_my_robot.Reviewbot.Store.Queue.{enqueue, supersede_and_enqueue, claim_next}
use oh_my_robot.Reviewbot.Store.Outcomes.{
  mark_succeeded, mark_skipped, mark_superseded, mark_failed, requeue_if_running, initialize,
}
use oh_my_robot.Reviewbot.Store.Reviews.{
  record_review, record_review_metrics, record_review_attempt_metrics, record_omp_execution,
  complete_review,
}

-- The methods that write.
pub data Op : Type 0 where
  start : Op
  submit : ReviewJob → EventSource → Option Text → Op
  supersede : Text → Text → ReviewJob → Op
  claim : Op
  succeed : Text → Op
  skip : Text → Text → Op
  mark_old : Text → Text → Op
  fail : Text → Text → Bool → Option ℤ → Option Text → Op
  requeue : Text → Text → Text → Op
  reviewed : Text → ℕ → Text → Option ℕ → Op
  metrics : ReviewMetrics → Op
  attempt : AttemptMetrics → Op
  omp_execution : Text → Text → ℕ → Text → Text → List ToolAudit → Op
  complete :
      Text
      → ℕ
      → Text
      → Option ℕ
      → ReviewMetrics
      → Option (List ReviewFinding)
      → Option (List Text)
      → Op

abbrev pub empty : Store
empty = record {
  events = [];
  reviews = [];
  findings = [];
  review_metrics = [];
  attempt_metrics = [];
  omp_sessions = [];
  omp_tool_audit = [];
}

-- A transaction that raised left the database as it was.
abbrev pub rolled_back : Store → Option (Store × Bool) → Store
rolled_back s none = s
rolled_back s (some r) = r.0

module _ (digest : Text × Text × Text × Text → Text) where
  unfoldable pub step : ℕ → Op → Store → Store
  unfolding enqueue supersede_and_enqueue claim_next mark_succeeded mark_skipped mark_superseded
      mark_failed requeue_if_running initialize record_review record_review_metrics
      record_review_attempt_metrics record_omp_execution complete_review
  step now start s = initialize now s
  step now (submit job source from) s = (enqueue now job source from s).0
  step now (supersede id reason job) s = rolled_back s (supersede_and_enqueue now id reason job s)
  step now claim s = (claim_next now s).0
  step now (succeed id) s = mark_succeeded now id s
  step now (skip id reason) s = mark_skipped now id reason s
  step now (mark_old id reason) s = mark_superseded now id reason s
  step now (fail id error retry after kind) s = mark_failed now id error retry after kind s
  step now (requeue id error kind) s = (requeue_if_running now id error kind s).0
  step now (reviewed repo number sha comment) s = record_review now repo number sha comment s
  step now (metrics m) s = record_review_metrics m s
  step now (attempt m) s = record_review_attempt_metrics m s
  step now (omp_execution id repo number sha session audit) s =
      record_omp_execution id repo number sha session audit s
  step now (complete repo number sha comment m findings paths) s =
      complete_review digest now repo number sha comment m findings paths s

  unfoldable pub run : List (ℕ × Op) → Store → Store
  unfolding step
  run [] s = s
  run ((now, op) ∷ ops) s = run ops (step now op s)
