-- ===== src/Reviewbot/Store.antt =====
-- src/reviewbot/storage.py: the state of `QueueStore`, the tables of the SQLite database.
-- A method is a function from the database (and the time) to the database and its result.
pub mod Queue
pub mod Outcomes
pub mod Findings
pub mod Reviews
pub mod Runs
pub mod Sound
pub mod Reachable
pub mod Lifecycle
pub mod Superseding
pub mod Reviewed
use oh_my_robot.Prelude.{ℕ, Text, Bool, Option, List}
use oh_my_robot.Reviewbot.Models.{EventRecord, ReviewRecord, FindingRecord, Priority}

-- A row of the table `review_metrics`.
pub record ReviewMetrics : Type 0 where
  pub delivery_id : Text
  pub diff_file_count : ℕ
  pub diff_bytes : ℕ
  pub omitted_file_count : ℕ
  pub model_input_tokens : Option ℕ
  pub model_output_tokens : Option ℕ
  pub finding_count : ℕ
  pub review_rank : Option Priority
  pub model_duration_ms : Option ℕ
  pub github_duration_ms : Option ℕ

-- A row of the table `review_attempt_metrics`.
pub record AttemptMetrics : Type 0 where
  pub delivery_id : Text
  pub diff_file_count : ℕ
  pub diff_bytes : ℕ
  pub omitted_file_count : ℕ
  pub model_input_tokens : Option ℕ
  pub model_output_tokens : Option ℕ
  pub model_duration_ms : Option ℕ
  pub github_duration_ms : Option ℕ

-- A row of the table `omp_sessions`.
pub record OmpSession : Type 0 where
  pub delivery_id : Text
  pub repository : Text
  pub pull_request_number : ℕ
  pub head_sha : Text
  pub session_id : Text

-- A row of the table `omp_tool_audit`.
pub record OmpToolUse : Type 0 where
  pub delivery_id : Text
  pub session_id : Text
  pub event : Text
  pub tool_name : Text
  pub is_error : Bool

pub record Store : Type 0 where
  pub events : List EventRecord
  pub reviews : List ReviewRecord
  pub findings : List FindingRecord
  pub review_metrics : List ReviewMetrics
  pub attempt_metrics : List AttemptMetrics
  pub omp_sessions : List OmpSession
  pub omp_tool_audit : List OmpToolUse
