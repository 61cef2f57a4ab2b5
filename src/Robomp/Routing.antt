-- ===== src/Robomp/Routing.antt =====
-- src/robomp/github_events.py, `route`: what is done with a webhook. The answers that a malformed
-- payload makes impossible, an AttributeError or a TypeError, are `none`.
pub mod Handlers
use oh_my_robot.Prelude.{
  ℕ, Text, codes, text_eq, lower, starts_with, Bool, true, false, not, ◌&&◌, ◌||◌, Option, none,
  some, is_none, is_some, List, [], ◌∷◌, ◌++◌, if◌then◌else◌, any, is_digit,
}
use oh_my_robot.Robomp.Json.{
  Json, Members, object, text, get, has_member, truthy, is_int, int_text, as_object,
  object_or_empty, in_or_empty, str_or_empty,
}
use oh_my_robot.Robomp.Accounts.{
  is_blank_text, remove_suffix, login_matches_bot, is_bot_account, submitter_info,
  effective_association, is_maintainer, is_implementation_authorizer, bot_suffix,
}
use oh_my_robot.Robomp.Mentions.{extract_mention}
use oh_my_robot.Robomp.Pragmas.{Pragma, parse_pragmas}

pub data Decision : Type 0 where
  queue skip : Decision

-- The functions of tasks.py that an event can be for.
pub data Task : Type 0 where
  triage_issue handle_release_ci handle_pr_conversation handle_comment : Task
  review_pr handle_review cleanup_workspace : Task

-- The fields of a decision that say whether a comment is a directive.
pub record Directive : Type 0 where
  pub body : Text
  pub author : Option Text
  pub pragmas : List Pragma
  pub authorizes_impl : Bool

-- `directive` is false when there is none.
pub record RouteDecision : Type 0 where
  pub decision : Decision
  pub task : Option Task
  pub repo : Option Text
  pub issue_key : Option Text
  pub reason : Text
  pub submitter : Option Text
  pub association : Option Text
  pub directive : Option Directive

-- The arguments of `route` that come from the settings; sets are given by their tests.
pub record Router : Type 0 where
  pub allowlist : Text → Bool
  pub bot_login : Text
  pub maintainers : Text → Bool
  pub reviewer_bots : Text → Bool
  pub resolve_issue_from_pr : Option (Text → Json → Option Text)
  pub pr_review_enabled : Bool
  pub release_sentinel_enabled : Bool
  pub release_commit_prefix : Text
  pub py_str : Json → Text

abbrev pub skipped : Option Text → Option Text → Text → RouteDecision
skipped repo key reason = record {
  decision = skip;
  task = none;
  repo = repo;
  issue_key = key;
  reason = reason;
  submitter = none;
  association = none;
  directive = none;
}

abbrev pub skip_of : Text → Text → Option RouteDecision
skip_of repo reason = some (skipped (some repo) none reason)

abbrev pub queued_for : Task → Text → Text → Text → RouteDecision
queued_for task repo key reason = record {
  decision = queue;
  task = some task;
  repo = some repo;
  issue_key = some key;
  reason = reason;
  submitter = none;
  association = none;
  directive = none;
}

abbrev pub from_submitter : RouteDecision → Option Text × Option Text → RouteDecision
from_submitter d (login, association) = record d { submitter = login; association = association }

abbrev pub with_directive : RouteDecision → Option Directive → RouteDecision
with_directive d directive = record d { directive = directive }

-- `f"{repo}#{number}"`
abbrev pub issue_key_of : Text → Json → Text
issue_key_of repo number = repo ++ b'#' ∷ int_text number

abbrev pub one_of : Text → List Text → Bool
one_of action actions = any (text_eq action) actions

module _ (r : Router) where
  -- `str(payload.get(key) or "")`
  abbrev pub field : Text → Members → Text
  field key m = str_or_empty r.py_str (get key m)

  abbrev resolved : Text → Json → Option Text → Text
  resolved repo number none = issue_key_of repo number
  resolved repo number (some []) = issue_key_of repo number
  resolved repo number (some (c ∷ key)) = c ∷ key

  abbrev resolver_answer : Option (Text → Json → Option Text) → Text → Json → Option Text
  resolver_answer none repo number = none
  resolver_answer (some resolve) repo number = resolve repo number

  unfoldable pub resolve_pr_key : Text → Json → Text
  resolve_pr_key repo number =
      resolved repo number (resolver_answer r.resolve_issue_from_pr repo number)

  abbrev reviewer_login : Text → Option Text
  reviewer_login raw =
      let login = remove_suffix bot_suffix raw in
      if is_blank_text raw
      then none
      else if r.reviewer_bots login
      then some login
      else if r.reviewer_bots raw
      then some raw
      else none

  abbrev reviewer_object : Option Members → Option Text
  reviewer_object none = none
  reviewer_object (some user) = reviewer_login (lower (field (codes "login") user))

  unfoldable pub reviewer_bot_login : Json → Option Text
  unfolding remove_suffix lower get
  reviewer_bot_login user = reviewer_object (as_object user)

  abbrev directive_from : Option Text → Bool → Text × List Pragma → Directive
  directive_from author authorizes (cleaned, pragmas) = record {
    body = cleaned;
    author = author;
    pragmas = pragmas;
    authorizes_impl = authorizes;
  }

  abbrev mention_directive : Option Text → Option Text → Option Text → Option Directive
  mention_directive login association none = none
  mention_directive login association (some stripped) = some (
      directive_from login (is_implementation_authorizer r.maintainers login association)
        (parse_pragmas stripped))

  abbrev directive_of : Text → Option Text → Option Text → Option Text → Option Directive
  directive_of body login association (some bot) =
      some (directive_from (some bot) false (parse_pragmas body))
  directive_of body login association none =
      if is_maintainer r.maintainers login association
      then mention_directive login association (extract_mention body r.bot_login)
      else none

  unfoldable pub directive_kwargs : Members → Option Text → Option Text → Option Directive
  unfolding reviewer_bot_login get parse_pragmas extract_mention is_maintainer
  directive_kwargs comment login association =
      directive_of (field (codes "body") comment) login association
        (reviewer_bot_login (get (codes "user") comment))

  -- A decision for a comment, with its submitter and its directive.
  abbrev commented : Task → Text → Text → Text → Members → Option Text → Option Text → RouteDecision
  commented task repo key reason comment login association =
      with_directive (from_submitter (queued_for task repo key reason) (login, association))
        (directive_kwargs comment login association)

  unfoldable pub comment_decision : Members → Task → Text → Text → Text → Members → RouteDecision
  unfolding submitter_info effective_association directive_kwargs
  comment_decision payload task repo key reason comment =
      let (login, association) = submitter_info comment in
      commented task repo key reason comment login
        (effective_association login association (get (codes "repository") payload))

  unfoldable pub pr_review_pr : Members → Text → Text → RouteDecision
  unfolding get is_bot_account submitter_info
  pr_review_pr pr repo action =
      let state = get (codes "state") pr in
      let number = get (codes "number") pr in
      let opened =
        if truthy state then text_eq (field (codes "state") pr) (codes "open") else true in
      if not opened
      then skipped (some repo) none (codes "PR not open")
      else if truthy (get (codes "draft") pr)
      then skipped (some repo) none (codes "draft PR")
      else if is_bot_account r.py_str r.bot_login (get (codes "user") pr)
      then skipped (some repo) none (codes "bot-authored PR")
      else if not (is_int number)
      then skipped (some repo) none (codes "PR missing number")
      else from_submitter
          (queued_for review_pr repo (issue_key_of repo number) (codes "pull_request." ++ action))
          (submitter_info pr)
