-- ===== src/Robomp/Routing/Handlers.antt =====
-- src/robomp/github_events.py, `route` and its handlers of each kind of event.
pub mod Agree
pub mod Bots
pub mod Dispatched
pub mod Sound
pub mod Trust
use oh_my_robot.Prelude.{
  ℕ, Text, codes, text_eq, lower, starts_with, Bool, true, false, not, ◌&&◌, ◌||◌, Option, none,
  some, is_none, is_some, List, [], ◌∷◌, ◌++◌, if◌then◌else◌, any, is_digit,
}
use oh_my_robot.Robomp.Json.{
  Json, Members, object, text, get, has_member, truthy, is_int, int_text, as_object,
  object_or_empty, in_or_empty, str_or_empty,
}
use oh_my_robot.Robomp.Accounts.{login_matches_bot, is_bot_account, submitter_info}
use oh_my_robot.Robomp.Routing.{
  Decision, queue, skip, Task, triage_issue, handle_release_ci, handle_pr_conversation,
  handle_comment, review_pr, handle_review, cleanup_workspace, RouteDecision, Router, skipped,
  skip_of, queued_for, from_submitter, issue_key_of, one_of, field, resolve_pr_key,
  reviewer_bot_login, comment_decision, pr_review_pr,
}

module _ (r : Router) where
  abbrev repo_name : Option Members → Option Text
  repo_name none = none
  repo_name (some repository) = full_name (get (codes "full_name") repository)
    where
      full_name : Json → Option Text
      full_name (text s) = some s
      full_name _ = none

  unfoldable pub repo_full_name : Members → Option Text
  unfolding get
  repo_full_name payload = repo_name (as_object (get (codes "repository") payload))

  abbrev is_version_tag : Text → Bool
  is_version_tag (v ∷ d ∷ s) = text_eq (v ∷ []) (codes "v") && is_digit d
  is_version_tag _ = false

  abbrev commit_message : Option Members → Text
  commit_message none = []
  commit_message (some commit) = field r (codes "message") commit

  abbrev release_decision : Text → Option Members → Option Members → RouteDecision
  release_decision repo none repository =
      skipped (some repo) none (codes "workflow_run payload incomplete")
  release_decision repo (some run) none =
      skipped (some repo) none (codes "workflow_run payload incomplete")
  release_decision repo (some run) (some repository) =
      let head_branch = field r (codes "head_branch") run in
      let message = commit_message (as_object (get (codes "head_commit") run)) in
      if not (text_eq head_branch (field r (codes "default_branch") repository))
        && not (is_version_tag head_branch)
      then skipped (some repo) none (codes "not a default-branch/tag run")
      else if not (starts_with message r.release_commit_prefix)
      then skipped (some repo) none (codes "not a release commit")
      else queued_for handle_release_ci repo (repo ++ codes "#release") (
          codes "workflow_run "
          ++ field r (codes "name") run
          ++ b' ' ∷ field r (codes "conclusion") run)

  unfoldable pub route_workflow_run : Members → Text → Text → RouteDecision
  unfolding get text_eq starts_with
  route_workflow_run payload repo action =
      if not (text_eq action (codes "completed"))
      then skipped (some repo) none (codes "workflow_run." ++ action ++ codes " ignored")
      else if not r.release_sentinel_enabled
      then skipped (some repo) none (codes "release sentinel disabled")
      else release_decision repo (as_object (get (codes "workflow_run") payload))
          (as_object (get (codes "repository") payload))

  abbrev issue_decision : Text → Text → Members → RouteDecision
  issue_decision repo action issue =
      let number = get (codes "number") issue in
      let key = issue_key_of repo number in
      if not (is_int number)
      then skipped (some repo) none (codes "issue missing number")
      else if one_of action (codes "opened" ∷ codes "reopened" ∷ [])
      then from_submitter (queued_for triage_issue repo key (codes "issues." ++ action))
          (submitter_info issue)
      else if text_eq action (codes "closed")
      then queued_for cleanup_workspace repo key (codes "issues.closed")
      else skipped (some repo) (some key) (codes "issues." ++ action ++ codes " ignored")

  abbrev issue_object : Text → Text → Option Members → Option RouteDecision
  issue_object repo action none = none
  issue_object repo action (some issue) = some (issue_decision repo action issue)

  abbrev issue_or_pr : Text → Text → Option Bool → Option Members → Option RouteDecision
  issue_or_pr repo action none issue = none
  issue_or_pr repo action (some true) issue = skip_of repo (codes "issue is a pull request")
  issue_or_pr repo action (some false) issue = issue_object repo action issue

  unfoldable pub route_issues : Members → Text → Text → Option RouteDecision
  unfolding get has_member submitter_info
  route_issues payload repo action =
      let issue = get (codes "issue") payload in
      issue_or_pr repo action (in_or_empty (codes "pull_request") issue) (object_or_empty issue)

  -- The bot's own comments and other bots' are refused, but not those of the reviewer bots.
  abbrev pub refused_account : Members → Bool
  refused_account comment =
      let user = get (codes "user") comment in
      is_none (reviewer_bot_login r user) && is_bot_account r.py_str r.bot_login user

  abbrev issue_author : Option Members → Text
  issue_author none = []
  issue_author (some user) = field r (codes "login") user

  abbrev pr_comment : Members → Text → Members → Members → RouteDecision
  pr_comment payload repo comment issue =
      let number = get (codes "number") issue in
      if login_matches_bot (issue_author (as_object (get (codes "user") issue))) r.bot_login
      then comment_decision r payload handle_pr_conversation repo (resolve_pr_key r repo number)
          (codes "issue_comment.created on PR #" ++ int_text number) comment
      else skipped (some repo) (some (issue_key_of repo number))
          (codes "incoming PR comments ignored")

  abbrev comment_on : Members → Text → Members → Option Members → Option RouteDecision
  comment_on payload repo comment none = none
  comment_on payload repo comment (some issue) =
      let number = get (codes "number") issue in
      if not (is_int number)
      then skip_of repo (codes "comment missing issue number")
      else some (
          if has_member (codes "pull_request") issue
          then pr_comment payload repo comment issue
          else comment_decision r payload handle_comment repo (issue_key_of repo number)
              (codes "issue_comment.created") comment)

  abbrev issue_comment : Members → Text → Option Members → Option RouteDecision
  issue_comment payload repo none = none
  issue_comment payload repo (some comment) =
      if refused_account comment
      then skip_of repo (codes "bot/self comment")
      else comment_on payload repo comment (object_or_empty (get (codes "issue") payload))

  unfoldable pub route_issue_comment : Members → Text → Option RouteDecision
  unfolding get has_member is_bot_account login_matches_bot comment_decision resolve_pr_key
      reviewer_bot_login
  route_issue_comment payload repo =
      issue_comment payload repo (object_or_empty (get (codes "comment") payload))

  -- `pr.get("user") or {}`, then its login.
  abbrev pr_author : Option Members → Option Text
  pr_author none = none
  pr_author (some user) = some (field r (codes "login") user)

  abbrev review_by_author : Members → Text → Members → Members → Option Text → Option RouteDecision
  review_by_author payload repo comment pr none = none
  review_by_author payload repo comment pr (some author) =
      let number = get (codes "number") pr in
      if not (login_matches_bot author r.bot_login)
      then skip_of repo (codes "PR not authored by bot")
      else if not (is_int number)
      then skip_of repo (codes "PR missing number")
      else some (
          comment_decision r payload handle_review repo (resolve_pr_key r repo number)
            (codes "pull_request_review_comment.created") comment)

  abbrev review_of : Members → Text → Members → Option Members → Option RouteDecision
  review_of payload repo comment none = none
  review_of payload repo comment (some pr) =
      review_by_author payload repo comment pr (pr_author (object_or_empty (get (codes "user") pr)))

  abbrev review_comment : Members → Text → Option Members → Option RouteDecision
  review_comment payload repo none = none
  review_comment payload repo (some comment) =
      if refused_account comment
      then skip_of repo (codes "bot/self review comment")
      else review_of payload repo comment (object_or_empty (get (codes "pull_request") payload))

  unfoldable pub route_review_comment : Members → Text → Option RouteDecision
  unfolding get is_bot_account login_matches_bot comment_decision resolve_pr_key reviewer_bot_login
  route_review_comment payload repo =
      review_comment payload repo (object_or_empty (get (codes "comment") payload))

  abbrev pr_opened : Text → Text → Option Members → Option RouteDecision
  pr_opened repo action none = none
  pr_opened repo action (some pr) = some (pr_review_pr r pr repo action)

  unfoldable pub route_pull_request : Members → Text → Text → Option RouteDecision
  unfolding get pr_review_pr
  route_pull_request payload repo action =
      if not r.pr_review_enabled
      then skip_of repo (codes "PR review disabled")
      else pr_opened repo action (object_or_empty (get (codes "pull_request") payload))

  abbrev pr_closed : Text → Option Members → Option RouteDecision
  pr_closed repo none = none
  pr_closed repo (some pr) =
      let number = get (codes "number") pr in
      let reason =
        if truthy (get (codes "merged") pr)
        then codes "pull_request.merged"
        else codes "pull_request.closed" in
      if not (is_int number)
      then skip_of repo (codes "PR missing number")
      else some (queued_for cleanup_workspace repo (resolve_pr_key r repo number) reason)

  unfoldable pub route_closed : Members → Text → Option RouteDecision
  unfolding get resolve_pr_key
  route_closed payload repo = pr_closed repo (object_or_empty (get (codes "pull_request") payload))

  -- The handlers in the order of the tests of `route`, once the repository is allowed.
  unfoldable pub route_allowed : Text → Members → Text → Option RouteDecision
  unfolding route_workflow_run route_issues route_issue_comment route_review_comment
      route_pull_request route_closed text_eq get
  route_allowed event_type payload repo =
      let action = field r (codes "action") payload in
      let created = text_eq action (codes "created") in
      if text_eq event_type (codes "workflow_run")
      then some (route_workflow_run payload repo action)
      else if text_eq event_type (codes "issues")
      then route_issues payload repo action
      else if text_eq event_type (codes "issue_comment") && created
      then route_issue_comment payload repo
      else if text_eq event_type (codes "pull_request")
          && one_of action (codes "opened" ∷ codes "reopened" ∷ codes "ready_for_review" ∷ [])
      then route_pull_request payload repo action
      else if text_eq event_type (codes "pull_request_review_comment") && created
      then route_review_comment payload repo
      else if text_eq event_type (codes "pull_request") && text_eq action (codes "closed")
      then route_closed payload repo
      else skip_of repo (event_type ++ b'.' ∷ action ++ codes " not handled")

  abbrev allowed_repo : Text → Members → Option Text → Option RouteDecision
  allowed_repo event_type payload none = some (skipped none none (codes "repo not on allowlist"))
  allowed_repo event_type payload (some repo) =
      if r.allowlist (lower repo)
      then route_allowed event_type payload repo
      else skip_of repo (codes "repo not on allowlist")

  unfoldable pub route : Text → Members → Option RouteDecision
  unfolding repo_full_name route_allowed lower
  route event_type payload = allowed_repo event_type payload (repo_full_name payload)
