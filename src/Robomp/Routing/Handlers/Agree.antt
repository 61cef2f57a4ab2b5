-- ===== src/Robomp/Routing/Handlers/Agree.antt =====
-- src/robomp/github_events.py and src/robomp/queue.py: a queued event is dispatched to the task that
-- `route` named.
use oh_my_robot.Prelude.{
  Text, codes, text_eq, starts_with, Bool, true, false, not, ◌&&◌, Option, none, some, [], ◌∷◌, ◌≡◌,
  refl, ap, ◌∙◌, arith, if◌then◌else◌,
}
use oh_my_robot.Robomp.Json.{Members, get, has_member, truthy, is_int, as_object, object_or_empty}
use oh_my_robot.Robomp.Accounts.{is_bot_account, login_matches_bot}
use oh_my_robot.Robomp.Dispatch.{Dispatched, conversation, merged_state, task_of}
use oh_my_robot.Robomp.Routing.{
  queue, skip, triage_issue, handle_release_ci, handle_pr_conversation, review_pr, handle_review,
  cleanup_workspace, RouteDecision, Router, one_of, field, comment_decision, pr_review_pr,
}
use oh_my_robot.Robomp.Routing.Handlers.{
  is_version_tag, commit_message, release_decision, route_workflow_run, issue_decision, issue_or_pr,
  refused_account, issue_author, pr_comment, comment_on, issue_comment, pr_author, review_by_author,
  review_of, review_comment, pr_opened, route_pull_request, pr_closed,
}
use oh_my_robot.Robomp.Routing.Handlers.Trust.{Holds}

-- The dispatcher calls the task of the decision, if the decision is to queue.
abbrev pub Agrees : Option Dispatched → RouteDecision → Type 0
Agrees x d = d.decision ≡ queue → task_of x ≡ d.task

if-Agrees :
    (x : Option Dispatched) (b : Bool) (y z : RouteDecision)
    → (b ≡ true → Agrees x y)
    → (b ≡ false → Agrees x z)
    → Agrees x (if b then y else z)
if-Agrees x true y z h k = h refl
if-Agrees x false y z h k = k refl

pub if-Holds-Agrees :
    (x : Option Dispatched) (b : Bool) (y z : Option RouteDecision)
    → (b ≡ true → Holds (Agrees x) y)
    → (b ≡ false → Holds (Agrees x) z)
    → Holds (Agrees x) (if b then y else z)
if-Holds-Agrees x true y z h k = h refl
if-Holds-Agrees x false y z h k = k refl

module _ (r : Router) (payload : Members) (repo : Text) (x : Option Dispatched) where
  never : skip ≡ queue → task_of x ≡ none
  never h = absurd (ground arith)

  release-Agrees :
      (run repository : Option Members)
      → task_of x ≡ some handle_release_ci
      → Agrees x (release_decision r repo run repository)
  unfolding starts_with
  release-Agrees none repository t = never
  release-Agrees (some run) none t = never
  release-Agrees (some run) (some repository) t =
      let head_branch = field r (codes "head_branch") run in
      let message = commit_message r (as_object (get (codes "head_commit") run)) in
      if-Agrees x
        (not (text_eq head_branch (field r (codes "default_branch") repository))
          && not (is_version_tag r head_branch))
        _ _ (λ _. never)
        (λ _.
          if-Agrees x (not (starts_with message r.release_commit_prefix)) _ _ (λ _. never)
            (λ _ _. t))

  pub workflow_run-Agrees :
      (action : Text)
      → (text_eq action (codes "completed") ≡ true → task_of x ≡ some handle_release_ci)
      → Agrees x (route_workflow_run r payload repo action)
  unfolding route_workflow_run
  workflow_run-Agrees action t =
      if-Agrees x (not (text_eq action (codes "completed"))) _ _ (λ _. never)
        (λ f.
          if-Agrees x (not r.release_sentinel_enabled) _ _ (λ _. never)
            (λ _.
              release-Agrees (as_object (get (codes "workflow_run") payload))
                (as_object (get (codes "repository") payload)) (t (ground arith))))

  issue_decision-Agrees :
      (action : Text) (issue : Members)
      → (one_of action (codes "opened" ∷ codes "reopened" ∷ []) ≡ true
          → task_of x ≡ some triage_issue)
      → (one_of action (codes "opened" ∷ codes "reopened" ∷ []) ≡ false
          → text_eq action (codes "closed") ≡ true
          → task_of x ≡ some cleanup_workspace)
      → Agrees x (issue_decision r repo action issue)
  issue_decision-Agrees action issue t u =
      let number = get (codes "number") issue in
      if-Agrees x (not (is_int number)) _ _ (λ _. never)
        (λ _.
          if-Agrees x (one_of action (codes "opened" ∷ codes "reopened" ∷ [])) _ _ (λ o _. t o)
            (λ f. if-Agrees x (text_eq action (codes "closed")) _ _ (λ c _. u f c) (λ _. never)))

  pub issue_or_pr-Agrees :
      (action : Text) (pr : Option Bool) (issue : Option Members)
      → (one_of action (codes "opened" ∷ codes "reopened" ∷ []) ≡ true
          → task_of x ≡ some triage_issue)
      → (one_of action (codes "opened" ∷ codes "reopened" ∷ []) ≡ false
          → text_eq action (codes "closed") ≡ true
          → task_of x ≡ some cleanup_workspace)
      → Holds (Agrees x) (issue_or_pr r repo action pr issue)
  issue_or_pr-Agrees action none issue t u = tt
  issue_or_pr-Agrees action (some true) issue t u = never
  issue_or_pr-Agrees action (some false) none t u = tt
  issue_or_pr-Agrees action (some false) (some issue) t u = issue_decision-Agrees action issue t u

  pr_comment-Agrees :
      (comment issue : Members)
      → task_of x ≡ some handle_pr_conversation
      → Agrees x (pr_comment r payload repo comment issue)
  unfolding comment_decision
  pr_comment-Agrees comment issue t =
      let author = issue_author r (as_object (get (codes "user") issue)) in
      if-Agrees x (login_matches_bot author r.bot_login) _ _ (λ _ _. t) (λ _. never)

  comment_on-Agrees :
      (comment : Members) (issue : Option Members)
      → ((m : Members)
          → issue ≡ some m
          → x ≡ conversation (some (has_member (codes "pull_request") m)))
      → Holds (Agrees x) (comment_on r payload repo comment issue)
  unfolding comment_decision
  comment_on-Agrees comment none t = tt
  comment_on-Agrees comment (some issue) t =
      let number = get (codes "number") issue in
      let pr = has_member (codes "pull_request") issue in
      if-Holds-Agrees x (not (is_int number)) _ _ (λ _. never)
        (λ _.
          if-Agrees x pr _ _
            (λ h.
              pr_comment-Agrees comment issue
                (ap task_of (t issue refl) ∙ ap (λ b. task_of (conversation (some b))) h))
            (λ f _. ap task_of (t issue refl) ∙ ap (λ b. task_of (conversation (some b))) f))

  pub issue_comment-Agrees :
      (o : Option Members)
      → ((m : Members)
          → object_or_empty (get (codes "issue") payload) ≡ some m
          → x ≡ conversation (some (has_member (codes "pull_request") m)))
      → Holds (Agrees x) (issue_comment r payload repo o)
  issue_comment-Agrees none t = tt
  issue_comment-Agrees (some comment) t =
      if-Holds-Agrees x (refused_account r comment) _ _ (λ _. never)
        (λ _. comment_on-Agrees comment (object_or_empty (get (codes "issue") payload)) t)

  review_by_author-Agrees :
      (comment pr : Members) (author : Option Text)
      → task_of x ≡ some handle_review
      → Holds (Agrees x) (review_by_author r payload repo comment pr author)
  unfolding comment_decision
  review_by_author-Agrees comment pr none t = tt
  review_by_author-Agrees comment pr (some author) t =
      let number = get (codes "number") pr in
      if-Holds-Agrees x (not (login_matches_bot author r.bot_login)) _ _ (λ _. never)
        (λ _. if-Holds-Agrees x (not (is_int number)) _ _ (λ _. never) (λ _ _. t))

  review_of-Agrees :
      (comment : Members) (pr : Option Members)
      → task_of x ≡ some handle_review
      → Holds (Agrees x) (review_of r payload repo comment pr)
  review_of-Agrees comment none t = tt
  review_of-Agrees comment (some pr) t =
      review_by_author-Agrees comment pr (pr_author r (object_or_empty (get (codes "user") pr))) t

  pub review_comment-Agrees :
      (o : Option Members)
      → task_of x ≡ some handle_review
      → Holds (Agrees x) (review_comment r payload repo o)
  review_comment-Agrees none t = tt
  review_comment-Agrees (some comment) t =
      if-Holds-Agrees x (refused_account r comment) _ _ (λ _. never)
        (λ _. review_of-Agrees comment (object_or_empty (get (codes "pull_request") payload)) t)

  pr_review_pr-Agrees :
      (pr : Members) (action : Text)
      → task_of x ≡ some review_pr
      → Agrees x (pr_review_pr r pr repo action)
  unfolding pr_review_pr
  pr_review_pr-Agrees pr action t =
      let state = get (codes "state") pr in
      if-Agrees x
        (not (if truthy state then text_eq (field r (codes "state") pr) (codes "open") else true)) _
        _ (λ _. never)
        (λ _.
          if-Agrees x (truthy (get (codes "draft") pr)) _ _ (λ _. never)
            (λ _.
              if-Agrees x (is_bot_account r.py_str r.bot_login (get (codes "user") pr)) _ _
                (λ _. never)
                (λ _.
                  if-Agrees x (not (is_int (get (codes "number") pr))) _ _ (λ _. never)
                    (λ _ _. t))))

  pub pull_request-Agrees :
      (action : Text)
      → task_of x ≡ some review_pr
      → Holds (Agrees x) (route_pull_request r payload repo action)
  unfolding route_pull_request
  pull_request-Agrees action t =
      if-Holds-Agrees x (not r.pr_review_enabled) _ _ (λ _. never)
        (λ _. opened (object_or_empty (get (codes "pull_request") payload)))
    where
      opened : (pr : Option Members) → Holds (Agrees x) (pr_opened r repo action pr)
      opened none = tt
      opened (some pr) = pr_review_pr-Agrees pr action t

  pub closed-Agrees :
      (pr : Option Members) → x ≡ merged_state pr → Holds (Agrees x) (pr_closed r repo pr)
  closed-Agrees none e = tt
  closed-Agrees (some pr) e =
      if-Holds-Agrees x (not (is_int (get (codes "number") pr))) _ _ (λ _. never)
        (λ _ _. ap task_of e)
