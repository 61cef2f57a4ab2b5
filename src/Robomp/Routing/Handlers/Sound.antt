-- ===== src/Robomp/Routing/Handlers/Sound.antt =====
-- src/robomp/github_events.py: what holds of whatever `route` decides.
use oh_my_robot.Prelude.{
  Text, codes, text_eq, lower, starts_with, Bool, true, false, not, ◌&&◌, Option, none, some,
  is_some, [], ◌∷◌, ◌++◌, ◌≡◌, ◌⊎◌, inl, inr, refl, subst, arith, Bool-cases,
}
use oh_my_robot.Robomp.Json.{
  Members, get, has_member, is_int, as_object, object_or_empty, in_or_empty,
}
use oh_my_robot.Robomp.Accounts.{login_matches_bot, submitter_info}
use oh_my_robot.Robomp.Routing.{
  queue, skip, triage_issue, handle_release_ci, handle_pr_conversation, handle_comment,
  handle_review, cleanup_workspace, Directive, RouteDecision, Router, skipped, issue_key_of, one_of,
  field, resolve_pr_key,
}
use oh_my_robot.Robomp.Routing.Handlers.{
  is_version_tag, commit_message, release_decision, route_workflow_run, issue_decision, issue_or_pr,
  route_issues, refused_account, issue_author, pr_comment, comment_on, issue_comment,
  route_issue_comment, pr_author, review_by_author, review_of, review_comment, route_review_comment,
  pr_opened, route_pull_request, pr_closed, route_closed, route_allowed, allowed_repo,
  repo_full_name, route,
}
use oh_my_robot.Robomp.Routing.Handlers.Trust.{
  IsCommentOf, IsAuthorized, IsShaped, IsRouted, Holds, if-Holds, if-either, skipped-IsRouted,
  queued-IsRouted, submitted-IsRouted, comment_decision-IsRouted, pr_review_pr-IsRouted,
}

module _ (r : Router) (payload : Members) (repo : Text) where
  abbrev Good : RouteDecision → Type 0
  Good = IsRouted r payload repo

  skips : (key : Option Text) (reason : Text) → Good (skipped (some repo) key reason)
  skips = skipped-IsRouted r payload repo

  release-Good : (run repository : Option Members) → Good (release_decision r repo run repository)
  unfolding starts_with
  release-Good none repository = skips none (codes "workflow_run payload incomplete")
  release-Good (some run) none = skips none (codes "workflow_run payload incomplete")
  release-Good (some run) (some repository) =
      let head_branch = field r (codes "head_branch") run in
      let message = commit_message r (as_object (get (codes "head_commit") run)) in
      if-either Good
        (not (text_eq head_branch (field r (codes "default_branch") repository))
          && not (is_version_tag r head_branch))
        _ _ (skips none (codes "not a default-branch/tag run"))
        (if-either Good (not (starts_with message r.release_commit_prefix)) _ _
          (skips none (codes "not a release commit"))
          (queued-IsRouted r payload repo handle_release_ci (repo ++ codes "#release") _))

  workflow_run-Good : (action : Text) → Good (route_workflow_run r payload repo action)
  unfolding route_workflow_run
  workflow_run-Good action =
      if-either Good (not (text_eq action (codes "completed"))) _ _ (skips none _) (
        if-either Good (not r.release_sentinel_enabled) _ _
          (skips none (codes "release sentinel disabled"))
          (release-Good (as_object (get (codes "workflow_run") payload))
            (as_object (get (codes "repository") payload))))

  issue_decision-Good :
      (action : Text) (issue : Members) → Good (issue_decision r repo action issue)
  issue_decision-Good action issue =
      let number = get (codes "number") issue in
      if-either Good (not (is_int number)) _ _ (skips none (codes "issue missing number")) (
        if-either Good (one_of action (codes "opened" ∷ codes "reopened" ∷ [])) _ _
          (submitted-IsRouted r payload repo triage_issue (issue_key_of repo number) _
            (submitter_info issue))
          (if-either Good (text_eq action (codes "closed")) _ _
            (queued-IsRouted r payload repo cleanup_workspace (issue_key_of repo number)
              (codes "issues.closed"))
            (skips (some (issue_key_of repo number)) _)))

  issue_or_pr-Good :
      (action : Text) (pr : Option Bool) (issue : Option Members)
      → Holds Good (issue_or_pr r repo action pr issue)
  issue_or_pr-Good action none issue = tt
  issue_or_pr-Good action (some true) issue = skips none (codes "issue is a pull request")
  issue_or_pr-Good action (some false) none = tt
  issue_or_pr-Good action (some false) (some issue) = issue_decision-Good action issue

  pr_comment-Good :
      (comment issue : Members)
      → IsCommentOf payload comment
      → Good (pr_comment r payload repo comment issue)
  pr_comment-Good comment issue c =
      let number = get (codes "number") issue in
      let author = issue_author r (as_object (get (codes "user") issue)) in
      if-either Good (login_matches_bot author r.bot_login) _ _
        (comment_decision-IsRouted r payload repo handle_pr_conversation
          (resolve_pr_key r repo number) _ comment c)
        (skips (some (issue_key_of repo number)) (codes "incoming PR comments ignored"))

  comment_on-Good :
      (comment : Members) (issue : Option Members)
      → IsCommentOf payload comment
      → Holds Good (comment_on r payload repo comment issue)
  comment_on-Good comment none c = tt
  comment_on-Good comment (some issue) c =
      let number = get (codes "number") issue in
      if-Holds Good (not (is_int number)) _ _ (skips none (codes "comment missing issue number")) (
        if-either Good (has_member (codes "pull_request") issue) _ _
          (pr_comment-Good comment issue c)
          (comment_decision-IsRouted r payload repo handle_comment (issue_key_of repo number)
            (codes "issue_comment.created") comment c))

  issue_comment-Good :
      (o : Option Members)
      → object_or_empty (get (codes "comment") payload) ≡ o
      → Holds Good (issue_comment r payload repo o)
  issue_comment-Good none c = tt
  issue_comment-Good (some comment) c =
      if-Holds Good (refused_account r comment) _ _ (skips none (codes "bot/self comment"))
        (comment_on-Good comment (object_or_empty (get (codes "issue") payload)) c)

  review_by_author-Good :
      (comment pr : Members) (author : Option Text)
      → IsCommentOf payload comment
      → Holds Good (review_by_author r payload repo comment pr author)
  review_by_author-Good comment pr none c = tt
  review_by_author-Good comment pr (some author) c =
      let number = get (codes "number") pr in
      if-Holds Good (not (login_matches_bot author r.bot_login)) _ _
        (skips none (codes "PR not authored by bot"))
        (if-Holds Good (not (is_int number)) _ _ (skips none (codes "PR missing number")) (
          comment_decision-IsRouted r payload repo handle_review (resolve_pr_key r repo number)
            (codes "pull_request_review_comment.created") comment c))

  review_of-Good :
      (comment : Members) (pr : Option Members)
      → IsCommentOf payload comment
      → Holds Good (review_of r payload repo comment pr)
  review_of-Good comment none c = tt
  review_of-Good comment (some pr) c =
      review_by_author-Good comment pr (pr_author r (object_or_empty (get (codes "user") pr))) c

  review_comment-Good :
      (o : Option Members)
      → object_or_empty (get (codes "comment") payload) ≡ o
      → Holds Good (review_comment r payload repo o)
  review_comment-Good none c = tt
  review_comment-Good (some comment) c =
      if-Holds Good (refused_account r comment) _ _ (skips none (codes "bot/self review comment"))
        (review_of-Good comment (object_or_empty (get (codes "pull_request") payload)) c)

  pr_opened-Good : (action : Text) (pr : Option Members) → Holds Good (pr_opened r repo action pr)
  pr_opened-Good action none = tt
  pr_opened-Good action (some pr) = pr_review_pr-IsRouted r payload repo pr action

  pr_closed-Good : (pr : Option Members) → Holds Good (pr_closed r repo pr)
  pr_closed-Good none = tt
  pr_closed-Good (some pr) =
      let number = get (codes "number") pr in
      if-Holds Good (not (is_int number)) _ _ (skips none (codes "PR missing number"))
        (queued-IsRouted r payload repo cleanup_workspace (resolve_pr_key r repo number) _)

  route_allowed-Good : (event_type : Text) → Holds Good (route_allowed r event_type payload repo)
  unfolding route_allowed route_issues route_issue_comment route_review_comment route_pull_request
      route_closed
  route_allowed-Good event_type =
      let action = field r (codes "action") payload in
      let created = text_eq action (codes "created") in
      let comment = object_or_empty (get (codes "comment") payload) in
      let pr = object_or_empty (get (codes "pull_request") payload) in
      let issue = get (codes "issue") payload in
      if-Holds Good (text_eq event_type (codes "workflow_run")) _ _ (workflow_run-Good action) (
        if-Holds Good (text_eq event_type (codes "issues")) _ _
          (issue_or_pr-Good action (in_or_empty (codes "pull_request") issue)
            (object_or_empty issue))
          (if-Holds Good (text_eq event_type (codes "issue_comment") && created) _ _
            (issue_comment-Good comment refl)
            (if-Holds Good
              (text_eq event_type (codes "pull_request")
                && one_of action
                    (codes "opened" ∷ codes "reopened" ∷ codes "ready_for_review" ∷ []))
              _ _
              (if-Holds Good (not r.pr_review_enabled) _ _ (skips none (codes "PR review disabled"))
                (pr_opened-Good action pr))
              (if-Holds Good (text_eq event_type (codes "pull_request_review_comment") && created) _
                _ (review_comment-Good comment refl)
                (if-Holds Good
                  (text_eq event_type (codes "pull_request") && text_eq action (codes "closed")) _ _
                  (pr_closed-Good pr) (skips none _))))))

abbrev pub IsAllowed : Router → Members → RouteDecision → Type 0
IsAllowed r payload d =
    (repo : Text) × (repo_full_name r payload ≡ some repo)
    × (r.allowlist (lower repo) ≡ true)
    × (d.repo ≡ some repo)

abbrev pub IsDecided : Router → Members → RouteDecision → Type 0
IsDecided r payload d =
    ((d.decision ≡ queue)
      × (is_some d.task ≡ true)
      × (is_some d.issue_key ≡ true)
      × IsAllowed r payload d)
    ⊎ ((d.decision ≡ skip) × (d.task ≡ none) × (d.submitter ≡ none) × (d.directive ≡ none))

-- What holds of a decision for a payload.
record IsSafe (r : Router) (payload : Members) (d : RouteDecision) : Type 0 where
  shaped : IsShaped d
  allowed : d.decision ≡ queue → IsAllowed r payload d
  authorized :
      (directive : Directive) → d.directive ≡ some directive → IsAuthorized r payload d directive

skipped-IsSafe :
    (r : Router) (payload : Members) (repo : Option Text) (reason : Text)
    → IsSafe r payload (skipped repo none reason)
skipped-IsSafe r payload repo reason = record {
  shaped = inr (refl, refl, refl, refl);
  allowed = λ h. absurd (ground arith);
  authorized = λ directive h. absurd (ground arith);
}

module _ (r : Router) (event_type : Text) (payload : Members) where
  allowed-IsSafe :
      (repo : Text) (o : Option RouteDecision) (d : RouteDecision)
      → repo_full_name r payload ≡ some repo
      → r.allowlist (lower repo) ≡ true
      → Holds (IsRouted r payload repo) o
      → o ≡ some d
      → IsSafe r payload d
  allowed-IsSafe repo none d e a g h = absurd (ground arith)
  allowed-IsSafe repo (some d') d e a g h =
      let q : d' ≡ d = ground arith in
      subst (IsSafe r payload) q (record {
        shaped = g.shaped;
        allowed = λ _. (repo, e, a, g.in_repo);
        authorized = g.authorized;
      })

  route-cases :
      (name : Option Text) (d : RouteDecision)
      → repo_full_name r payload ≡ name
      → allowed_repo r event_type payload name ≡ some d
      → IsSafe r payload d
  route-cases none d e h =
      let q : skipped none none (codes "repo not on allowlist") ≡ d = ground arith in
      subst (IsSafe r payload) q (skipped-IsSafe r payload none (codes "repo not on allowlist"))
  route-cases (some repo) d e h = elim (Bool-cases (r.allowlist (lower repo))) [
    | inl t ↦
        allowed-IsSafe repo (route_allowed r event_type payload repo) d e t
          (route_allowed-Good r payload repo event_type) (ground (arith, h, t))
    | inr f ↦
        let q : skipped (some repo) none (codes "repo not on allowlist") ≡ d =
          ground (arith, h, f) in
        subst (IsSafe r payload) q
          (skipped-IsSafe r payload (some repo) (codes "repo not on allowlist"))
  ]

  route-IsSafe : (d : RouteDecision) → route r event_type payload ≡ some d → IsSafe r payload d
  unfolding route
  route-IsSafe d h = route-cases (repo_full_name r payload) d refl h

  -- A decision of `route` is to queue, with a task, an issue and the payload's repository, which is on
  -- the allowlist in lower case; or to skip, with no task, no submitter and no directive.
  pub route-IsDecided :
      (d : RouteDecision) → route r event_type payload ≡ some d → IsDecided r payload d
  route-IsDecided d h = elim (route-IsSafe d h).shaped [
    | inl (q, t, k) ↦ inl (q, t, k, (route-IsSafe d h).allowed q)
    | inr s ↦ inr s
  ]

  -- When `route` gives a directive, the payload has a comment, and either a configured reviewer bot
  -- wrote it and the directive authorizes no implementation, or its author is a maintainer, by login or
  -- association, who mentions the bot in it, and the directive authorizes an implementation just when
  -- the author is listed as a maintainer or is an owner.
  pub route-IsAuthorized :
      (d : RouteDecision) (directive : Directive)
      → route r event_type payload ≡ some d
      → d.directive ≡ some directive
      → IsAuthorized r payload d directive
  route-IsAuthorized d directive h = (route-IsSafe d h).authorized directive
