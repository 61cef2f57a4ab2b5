-- ===== src/Reviewbot/Service/Stages.antt =====
-- src/reviewbot/service.py: the stages of `process`, each what follows one awaited call.
use oh_my_robot.Prelude.{
  ℕ, zero, suc, ◌+◌, ◌-◌, Text, codes, text_eq, lower, decimal, contains, Bool, true, false, not,
  Option, none, some, List, [], ◌∷◌, ◌++◌, ◌||◌, ◌&&◌, ◌==◌, ltb, if◌then◌else◌, any,
}
use oh_my_robot.Reviewbot.Models.{
  PullRequest, PullRequestComment, Priority, p0, p1, ReviewFinding, ReviewResult, ReviewJob,
}
use oh_my_robot.Reviewbot.Findings.{finding_fingerprint}
use oh_my_robot.Reviewbot.Store.Outcomes.{mark_skipped}
use oh_my_robot.Reviewbot.Diff.{DiffContext, DiffReviewPlan, has_changed_line}
use oh_my_robot.Reviewbot.Reviewer.{is_clean}
use oh_my_robot.Reviewbot.Service.{
  other_error, Outcome, returned, raised, cancelled, InlineComment, CheckRun, Client, Engine,
  Service, World,
}

unfoldable pub review_marker : Text → Text
review_marker head_sha = codes "<!-- oh-my-robot-review:" ++ head_sha ++ codes " -->"

unfoldable pub refresh_delivery_id : Text → ℕ → Text → Text
refresh_delivery_id repository number head_sha =
    codes "refresh:" ++ lower repository ++ codes ":" ++ decimal number ++ codes ":" ++ head_sha

abbrev pub is_review_action : Text → Bool
is_review_action action =
    text_eq action (codes "opened")
    || text_eq action (codes "reopened")
    || text_eq action (codes "ready_for_review")
    || text_eq action (codes "synchronize")

-- `end_line or line`.
abbrev pub last_line : ReviewFinding → ℕ
last_line f = or_line f.end_line
  where
    or_line : Option ℕ → ℕ
    or_line none = f.line
    or_line (some n) = if n == 0 then f.line else n

-- Each of the `count` lines from `line` on is changed in one of the batches.
abbrev pub shown_from : List DiffContext → Text → ℕ → ℕ → Bool
shown_from batches path line zero = true
shown_from batches path line (suc count) =
    any (λ b. has_changed_line b path line) batches && shown_from batches path (suc line) count

unfoldable pub finding_is_locatable : DiffReviewPlan → ReviewFinding → Bool
finding_is_locatable plan f =
    if not (any (text_eq f.path) plan.reviewed_files)
    then false
    else (if ltb (last_line f) f.line || ltb 100 (last_line f - f.line)
        then false
        else shown_from plan.batches f.path f.line (last_line f + 1 - f.line))

abbrev pub has_marker : Text → PullRequestComment → Bool
has_marker head_sha comment = contains (review_marker head_sha) comment.body

abbrev is_severe : Priority → Bool
is_severe p0 = true
is_severe p1 = true
is_severe _ = false

abbrev pub conclusion_of : ReviewResult → Text
conclusion_of result =
    if is_clean result.verdict
    then codes "success"
    else if is_severe result.rank
    then codes "failure"
    else codes "neutral"

-- `mark_skipped` and the return.
abbrev pub skip_event : ℕ → ReviewJob → Text → World → World × Outcome Unit
skip_event now job reason w =
    (record w { store = mark_skipped now job.delivery_id reason w.store }, returned tt)

-- The exceptions that the method raises itself.
abbrev python_error : Text → Text → Outcome Unit
python_error class_name message = raised (record {
  kind = other_error;
  message = message;
  class_name = class_name;
  retry_after = none;
  input_tokens = none;
  output_tokens = none;
})

abbrev pub runtime_error : Text → Outcome Unit
runtime_error message = python_error (codes "RuntimeError") message

abbrev pub value_error : Text → Outcome Unit
value_error message = python_error (codes "ValueError") message

module _ (service : Service) (client : Client) (engine : Engine) (now : ℕ) (job : ReviewJob) where
  -- One inline comment: an exception is logged, and a cancellation ends the method.
  abbrev pub inline_of : PullRequest → ReviewFinding → InlineComment
  inline_of pr f = record {
    repository = pr.repository;
    number = pr.number;
    body = service.render_inline_finding pr f (finding_fingerprint service.digest f);
    commit_id = pr.head_sha;
    path = f.path;
    line = last_line f;
    start_line = if last_line f == f.line then none else some f.line;
  }

  abbrev add_inline : World → InlineComment → World
  add_inline w c = record w { inline_comments = w.inline_comments ++ c ∷ [] }

  abbrev pub after_inline :
      InlineComment → Outcome Unit → World → (World → World × Outcome Unit) → World × Outcome Unit
  after_inline c (returned _) w k = k (add_inline w c)
  after_inline c (raised e) w k = k w
  after_inline c cancelled w k = (w, cancelled)

  unfoldable pub post_inline :
      (InlineComment → Outcome Unit)
      → PullRequest
      → DiffReviewPlan
      → List ReviewFinding
      → World
      → World × Outcome Unit
  unfolding finding_is_locatable
  post_inline create pr plan [] w = (w, returned tt)
  post_inline create pr plan (f ∷ findings) w =
      let rest = post_inline create pr plan findings in
      if finding_is_locatable plan f
      then after_inline (inline_of pr f) (create (inline_of pr f)) w rest
      else rest w

  unfoldable pub post_all_inline :
      Option (InlineComment → Outcome Unit)
      → PullRequest
      → DiffReviewPlan
      → List ReviewFinding
      → World
      → World × Outcome Unit
  unfolding post_inline
  post_all_inline none pr plan findings w = (w, returned tt)
  post_all_inline (some create) pr plan findings w = post_inline create pr plan findings w

  abbrev check_of : PullRequest → ReviewResult → Text → CheckRun
  check_of pr result summary = record {
    repository = pr.repository;
    head_sha = pr.head_sha;
    conclusion = conclusion_of result;
    summary = summary;
  }

  abbrev pub after_check : CheckRun → Outcome Unit → World → World × Outcome Unit
  after_check c (returned _) w = (record w { check_runs = w.check_runs ++ c ∷ [] }, returned tt)
  after_check c (raised e) w = (w, returned tt)
  after_check c cancelled w = (w, cancelled)

  unfoldable pub post_check :
      Option (CheckRun → Outcome Unit) → CheckRun → World → World × Outcome Unit
  post_check none c w = (w, returned tt)
  post_check (some create) c w = after_check c (create c) w

  -- What follows a part of the method that has returned.
  unfoldable pub then_do :
      World × Outcome Unit → (World → World × Outcome Unit) → World × Outcome Unit
  then_do (w, returned _) k = k w
  then_do (w, raised e) k = (w, raised e)
  then_do (w, cancelled) k = (w, cancelled)

  unfoldable pub publish_review_outputs :
      PullRequest → ReviewResult → DiffReviewPlan → Text → World → World × Outcome Unit
  unfolding post_all_inline post_check then_do
  publish_review_outputs pr result plan summary w =
      then_do (post_all_inline client.create_pull_request_review_comment pr plan result.findings w)
        (post_check client.create_check_run (check_of pr result summary))
