-- ===== src/Reviewbot/Service.antt =====
-- src/reviewbot/service.py: `ReviewService.process`, the review of one claimed event.
-- GitHub and the review engine are the interfaces `Client` and `Engine`: what a call answers, and
-- how long it took in milliseconds. The renderers and the rules are parameters. The times of the
-- database are that of the one call of a run that stamps a row with it.
pub mod Stages
pub mod Process
pub mod Quiet
pub mod Published
pub mod Ended
pub mod Twice
use oh_my_robot.Prelude.{
  ℕ, Text, text_eq, Bool, true, false, Option, none, some, List, ◌||◌, ◌&&◌, ◌==◌, leb,
}
use oh_my_robot.Prelude.Int.{ℤ}
use oh_my_robot.Reviewbot.Models.{
  PullRequest, PullRequestComment, ChangedFile, ReviewFinding, ReviewResult, ToolAudit,
}
use oh_my_robot.Reviewbot.Store.{Store}
use oh_my_robot.Reviewbot.Diff.{DiffContext, DiffReviewPlan}

-- The exceptions that the service tells apart.
pub data ErrorKind : Type 0 where
  omp_review_error : Bool → ErrorKind
  review_format_error : ErrorKind
  github_api_error : ℕ → Bool → ErrorKind
  deepseek_api_error : ℕ → ErrorKind
  other_error : ErrorKind

-- An exception: `str(exc)`, the name of its class, and the attributes that are read by `getattr`.
-- `retry_after` is in milliseconds.
pub record Error : Type 0 where
  pub kind : ErrorKind
  pub message : Text
  pub class_name : Text
  pub retry_after : Option ℤ
  pub input_tokens : Option ℕ
  pub output_tokens : Option ℕ

-- How an awaited call ends; `cancelled` is CancelledError, which `except Exception` lets through.
pub data Outcome (A : Type 0) : Type 0 where
  returned : A → Outcome A
  raised : Error → Outcome A
  cancelled : Outcome A

pub record ReviewExecution : Type 0 where
  pub result : ReviewResult
  pub input_tokens : Option ℕ
  pub output_tokens : Option ℕ
  pub session_id : Option Text
  pub tool_audit : List ToolAudit

pub record Comment : Type 0 where
  pub repository : Text
  pub number : ℕ
  pub body : Text

pub record InlineComment : Type 0 where
  pub repository : Text
  pub number : ℕ
  pub body : Text
  pub commit_id : Text
  pub path : Text
  pub line : ℕ
  pub start_line : Option ℕ

pub record CheckRun : Type 0 where
  pub repository : Text
  pub head_sha : Text
  pub conclusion : Text
  pub summary : Text

-- GitHub, as one run of `process` meets it; the methods that may be missing are options.
pub record Client : Type 0 where
  pub get_pull_request : Text → ℕ → Outcome (PullRequest × ℕ)
  pub get_pull_request_latest : Text → ℕ → Outcome (PullRequest × ℕ)
  pub list_pull_request_comments : Text → ℕ → Outcome (List PullRequestComment × ℕ)
  pub list_pull_request_files : Text → ℕ → Outcome (List ChangedFile × ℕ)
  pub download_pull_request_archive : Option (Text → Text → Outcome (List ℕ × ℕ))
  pub create_pull_request_comment : Comment → Outcome (Option ℕ × ℕ)
  pub create_pull_request_review_comment : Option (InlineComment → Outcome Unit)
  pub create_check_run : Option (CheckRun → Outcome Unit)

-- The reviewers; the duration is known also when the call raises.
pub record Engine : Type 0 where
  pub review_plan : PullRequest → DiffReviewPlan → Text → Outcome ReviewExecution × ℕ
  pub deep_review :
      Option (PullRequest → DiffContext → Text → Option (List ℕ) → Outcome ReviewExecution × ℕ)

-- The constructor's arguments, and the functions of other modules that only make texts.
pub record Service : Type 0 where
  pub enabled : Bool
  pub allowlist : List Text
  pub deep_mode : Bool
  pub max_diff_bytes : ℤ
  pub digest : Text × Text × Text × Text → Text
  pub load_rules : List ChangedFile → Text
  pub render_review : PullRequest → ReviewResult → DiffReviewPlan → Text
  pub render_inline_finding : PullRequest → ReviewFinding → Text → Text

-- The changed files of a Pull Request with the batches and the diff made of them.
pub record Changes : Type 0 where
  pub files : List ChangedFile
  pub diff_plan : DiffReviewPlan
  pub diff : DiffContext

-- The database and what was written to GitHub, the oldest first.
pub record World : Type 0 where
  pub store : Store
  pub comments : List Comment
  pub inline_comments : List InlineComment
  pub check_runs : List CheckRun

unfoldable pub is_retryable : ErrorKind → Bool
is_retryable (omp_review_error retryable) = retryable
is_retryable review_format_error = false
is_retryable (github_api_error status rate_limited) =
    status == 0 || status == 429 || leb 500 status || (status == 403 && rate_limited)
is_retryable (deepseek_api_error status) = status == 0 || status == 429 || leb 500 status
is_retryable other_error = false

-- An awaited call and what the method does with its result.
unfoldable pub await :
    {A : Type 0} → Outcome A → World → (A → World × Outcome Unit) → World × Outcome Unit
await (returned a) w k = k a
await (raised e) w k = (w, raised e)
await cancelled w k = (w, cancelled)
