-- ===== src/Reviewbot/Models.antt =====
-- src/reviewbot/models.py: the data of the review service. A `float` of the source is a number of
-- thousandths here. The length limits that pydantic checks are part of the model's parser and
-- are not carried by the records.
use oh_my_robot.Prelude.{ℕ, Text, Bool, true, false, Option, List}

pub data Priority : Type 0 where
  p0 p1 p2 p3 : Priority

pub data ReviewVerdict : Type 0 where
  clean needs_attention : ReviewVerdict

pub data EventState : Type 0 where
  queued running succeeded failed skipped superseded : EventState

pub data EventSource : Type 0 where
  webhook refresh replay manual : EventSource

pub data FindingStatus : Type 0 where
  new active resolved relocated : FindingStatus

pub record PullRequest : Type 0 where
  pub repository : Text
  pub number : ℕ
  pub title : Text
  pub body : Text
  pub state : Text
  pub draft : Bool
  pub author : Text
  pub head_sha : Text
  pub head_ref : Text
  pub base_sha : Text
  pub base_ref : Text
  pub html_url : Text

pub record ChangedFile : Type 0 where
  pub filename : Text
  pub status : Text
  pub patch : Text
  pub additions : ℕ
  pub deletions : ℕ

pub record ReviewFinding : Type 0 where
  pub priority : Priority
  pub path : Text
  pub line : ℕ
  pub end_line : Option ℕ
  pub symbol : Text
  pub title : Text
  pub problem : Text
  pub impact : Text
  pub suggestion : Text
  pub confidence : ℕ

pub record ReviewResult : Type 0 where
  pub summary : Text
  pub verdict : ReviewVerdict
  pub rank : Priority
  pub findings : List ReviewFinding
  pub test_suggestions : List Text

pub record PullRequestComment : Type 0 where
  pub id : ℕ
  pub body : Text

-- A row of the table `events`. A timestamp is a number of seconds.
pub record EventRecord : Type 0 where
  pub delivery_id : Text
  pub event_type : Text
  pub action : Text
  pub repository : Text
  pub pull_request_number : ℕ
  pub webhook_head_sha : Text
  pub state : EventState
  pub attempts : ℕ
  pub last_error : Option Text
  pub error_type : Option Text
  pub source : EventSource
  pub source_delivery_id : Option Text
  pub available_at : ℕ
  pub started_at : Option ℕ
  pub finished_at : Option ℕ
  pub created_at : ℕ
  pub updated_at : ℕ

-- A row of the table `reviews`.
pub record ReviewRecord : Type 0 where
  pub repository : Text
  pub pull_request_number : ℕ
  pub head_sha : Text
  pub comment_id : Option ℕ
  pub created_at : ℕ

-- A row of the table `findings`.
pub record FindingRecord : Type 0 where
  pub fingerprint : Text
  pub repository : Text
  pub pull_request_number : ℕ
  pub head_sha : Text
  pub path : Text
  pub line : ℕ
  pub end_line : Option ℕ
  pub priority : Priority
  pub title : Text
  pub status : FindingStatus
  pub first_seen_sha : Text
  pub last_seen_sha : Text
  pub created_at : ℕ
  pub updated_at : ℕ

pub record ReviewJob : Type 0 where
  pub delivery_id : Text
  pub event_type : Text
  pub action : Text
  pub repository : Text
  pub pull_request_number : ℕ
  pub webhook_head_sha : Text

-- An entry of the audit of the deep reviewer's tools, a mapping of which three keys are read.
pub record ToolAudit : Type 0 where
  pub event : Option Text
  pub tool : Option Text
  pub is_error : Option Bool

-- The tests on states that the statements of the store make.
abbrev pub is_queued : EventState → Bool
is_queued queued = true
is_queued _ = false

abbrev pub is_running : EventState → Bool
is_running running = true
is_running _ = false

abbrev pub is_resolved : FindingStatus → Bool
is_resolved resolved = true
is_resolved _ = false

-- `_PRIORITY_ORDER`.
abbrev pub priority_order : Priority → ℕ
priority_order p0 = 0
priority_order p1 = 1
priority_order p2 = 2
priority_order p3 = 3
