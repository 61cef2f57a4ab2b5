-- ===== src/Robomp/Routing/Handlers/Dispatched.antt =====
-- src/robomp/github_events.py and src/robomp/queue.py: the event's type decides the handler in both.
use oh_my_robot.Prelude.{
  Text, codes, text_eq, text_eq_iff, lower, Bool, true, false, ◌&&◌, ◌||◌, Option, none, some, List,
  [], ◌∷◌, ◌≡◌, inl, inr, refl, sym, subst, ap, ◌∙◌, arith, any, Bool-cases,
}
use oh_my_robot.Robomp.Json.{
  Json, Members, no_member, object, get, has_member, truthy, as_object, object_or_empty,
  in_or_empty, in_value,
}
use oh_my_robot.Robomp.Dispatch.{Dispatched, conversation, dispatch, task_of}
use oh_my_robot.Robomp.Routing.{queue, skip, RouteDecision, Router, skipped, one_of, field}
use oh_my_robot.Robomp.Routing.Handlers.{
  route_issues, route_issue_comment, route_review_comment, route_closed, route_allowed,
  allowed_repo, repo_full_name, route,
}
use oh_my_robot.Robomp.Routing.Handlers.Agree.{
  Agrees, if-Holds-Agrees, workflow_run-Agrees, issue_or_pr-Agrees, issue_comment-Agrees,
  review_comment-Agrees, pull_request-Agrees, closed-Agrees,
}
use oh_my_robot.Robomp.Routing.Handlers.Trust.{Holds}

in_object :
    (key : Text) (value : Json) (m : Members)
    → as_object value ≡ some m
    → in_value key value ≡ some (has_member key m)
in_object key (object d) m h = let e : d ≡ m = ground arith in ap (λ x. some (has_member key x)) e
in_object key _ m h = absurd (ground arith)

-- In an object, `in` is the membership of its keys.
in_or_empty-object :
    (key : Text) (value : Json) (m : Members)
    → object_or_empty value ≡ some m
    → in_or_empty key value ≡ some (has_member key m)
unfolding has_member
in_or_empty-object key value m h = elim (Bool-cases (truthy value)) [
  | inl t ↦ rw t (in_object key value m (ground (arith, h, t)))
  | inr f ↦
      let e : no_member ≡ m = ground (arith, h, f) in
      subst (λ x. in_or_empty key value ≡ some (has_member key x)) e (rw f refl)
]

abbrev review_actions : List Text
review_actions = codes "opened" ∷ codes "reopened" ∷ codes "ready_for_review" ∷ codes "labeled" ∷ []

wider :
    (a b c d : Bool) → (a || (b || (c || false))) ≡ true → (a || (b || (c || (d || false)))) ≡ true
wider a b c d h = ground arith

opened-review :
    (action : Text)
    → one_of action (codes "opened" ∷ codes "reopened" ∷ codes "ready_for_review" ∷ []) ≡ true
    → one_of action review_actions ≡ true
opened-review action =
    wider (text_eq action (codes "opened")) (text_eq action (codes "reopened"))
      (text_eq action (codes "ready_for_review")) (text_eq action (codes "labeled"))

closed-review :
    (action : Text) → text_eq action (codes "closed") ≡ true → one_of action review_actions ≡ false
unfolding text_eq
closed-review action h = rw ((text_eq_iff action (codes "closed")).0 h) refl

module _ (r : Router) (payload : Members) (repo : Text) where
  abbrev done : Text → Option Dispatched
  done event = dispatch r.py_str event payload

  abbrev Right : Text → Type 0
  Right event = Holds (Agrees (done event)) (route_allowed r event payload repo)

  workflow_run-Right : Right (codes "workflow_run")
  unfolding dispatch route_allowed text_eq
  workflow_run-Right =
      workflow_run-Agrees r payload repo (done (codes "workflow_run"))
        (field r (codes "action") payload) (λ t. rw t refl)

  issues-Right : Right (codes "issues")
  unfolding dispatch route_allowed route_issues text_eq
  issues-Right =
      let issue = get (codes "issue") payload in
      issue_or_pr-Agrees r payload repo (done (codes "issues")) (field r (codes "action") payload)
        (in_or_empty (codes "pull_request") issue) (object_or_empty issue) (λ t. rw t refl)
        (λ f c. rw f (rw c refl))

  issue_comment-Right : Right (codes "issue_comment")
  unfolding dispatch route_allowed route_issue_comment text_eq
  issue_comment-Right =
      let x = done (codes "issue_comment") in
      if-Holds-Agrees x (text_eq (field r (codes "action") payload) (codes "created")) _ _
        (λ t.
          issue_comment-Agrees r payload repo x (object_or_empty (get (codes "comment") payload))
            (λ m e. rw t (
              ap conversation
                (in_or_empty-object (codes "pull_request") (get (codes "issue") payload) m e))))
        (λ _ h. absurd (ground arith))

  pull_request-Right : Right (codes "pull_request")
  unfolding dispatch route_allowed route_closed text_eq
  pull_request-Right =
      let x = done (codes "pull_request") in
      let action = field r (codes "action") payload in
      if-Holds-Agrees x
        (one_of action (codes "opened" ∷ codes "reopened" ∷ codes "ready_for_review" ∷ [])) _ _
        (λ t. pull_request-Agrees r payload repo x action (rw (opened-review action t) refl))
        (λ f.
          if-Holds-Agrees x (text_eq action (codes "closed")) _ _
            (λ t.
              closed-Agrees r payload repo x (object_or_empty (get (codes "pull_request") payload))
                (rw (closed-review action t) (rw t refl)))
            (λ _ h. absurd (ground arith)))

  review-Right : Right (codes "pull_request_review_comment")
  unfolding dispatch route_allowed route_review_comment text_eq
  review-Right =
      let x = done (codes "pull_request_review_comment") in
      if-Holds-Agrees x (text_eq (field r (codes "action") payload) (codes "created")) _ _
        (λ t.
          review_comment-Agrees r payload repo x (object_or_empty (get (codes "comment") payload))
            (rw t refl))
        (λ _ h. absurd (ground arith))

  -- The type of the event is none of those that `route` handles.
  other-Right :
      (event : Text)
      → any (text_eq event) (
          codes "workflow_run"
          ∷ codes "issues"
          ∷ codes "issue_comment"
          ∷ codes "pull_request"
          ∷ codes "pull_request_review_comment"
          ∷ [])
        ≡ false
      → Right event
  unfolding route_allowed
  other-Right event f =
      let x = done event in
      let action = field r (codes "action") payload in
      let created = text_eq action (codes "created") in
      if-Holds-Agrees x (text_eq event (codes "workflow_run")) _ _ (λ t. absurd (ground arith))
        (λ _.
          if-Holds-Agrees x (text_eq event (codes "issues")) _ _ (λ t. absurd (ground arith))
            (λ _.
              if-Holds-Agrees x (text_eq event (codes "issue_comment") && created) _ _
                (λ t. absurd (ground arith))
                (λ _.
                  if-Holds-Agrees x
                    (text_eq event (codes "pull_request")
                      && one_of action
                          (codes "opened" ∷ codes "reopened" ∷ codes "ready_for_review" ∷ []))
                    _ _ (λ t. absurd (ground arith))
                    (λ _.
                      if-Holds-Agrees x
                        (text_eq event (codes "pull_request_review_comment") && created) _ _
                        (λ t. absurd (ground arith))
                        (λ _.
                          if-Holds-Agrees x
                            (text_eq event (codes "pull_request")
                              && text_eq action (codes "closed"))
                            _ _ (λ t. absurd (ground arith)) (λ _ h. absurd (ground arith)))))))

  at_event : (name event : Text) → text_eq event name ≡ true → Right name → Right event
  at_event name event t h = subst Right (sym ((text_eq_iff event name).0 t)) h

  event-Right : (event : Text) → Right event
  event-Right event = elim (Bool-cases (text_eq event (codes "workflow_run"))) [
    | inl t ↦ at_event (codes "workflow_run") event t workflow_run-Right
    | inr a ↦ elim (Bool-cases (text_eq event (codes "issues"))) [
      | inl t ↦ at_event (codes "issues") event t issues-Right
      | inr b ↦ elim (Bool-cases (text_eq event (codes "issue_comment"))) [
        | inl t ↦ at_event (codes "issue_comment") event t issue_comment-Right
        | inr c ↦ elim (Bool-cases (text_eq event (codes "pull_request"))) [
          | inl t ↦ at_event (codes "pull_request") event t pull_request-Right
          | inr d ↦ elim (Bool-cases (text_eq event (codes "pull_request_review_comment"))) [
            | inl t ↦ at_event (codes "pull_request_review_comment") event t review-Right
            | inr e ↦ other-Right event (rw a (rw b (rw c (rw d (rw e refl)))))
          ]
        ]
      ]
    ]
  ]

module _ (r : Router) (event_type : Text) (payload : Members) where
  named :
      (o : Option RouteDecision) (d : RouteDecision)
      → Holds (Agrees (dispatch r.py_str event_type payload)) o
      → o ≡ some d
      → Agrees (dispatch r.py_str event_type payload) d
  named none d g h = absurd (ground arith)
  named (some d') d g h =
      let q : d' ≡ d = ground arith in subst (Agrees (dispatch r.py_str event_type payload)) q g

  named-repo :
      (repo : Option Text) (d : RouteDecision)
      → allowed_repo r event_type payload repo ≡ some d
      → Agrees (dispatch r.py_str event_type payload) d
  named-repo none d h k =
      let q : skipped none none (codes "repo not on allowlist") ≡ d = ground arith in
      let e : skip ≡ queue = ap (λ x. x.decision) q ∙ k in absurd (ground arith)
  named-repo (some repo) d h k = elim (Bool-cases (r.allowlist (lower repo))) [
    | inl t ↦
        named (route_allowed r event_type payload repo) d (event-Right r payload repo event_type)
          (ground (arith, h, t)) k
    | inr f ↦
        let q : skipped (some repo) none (codes "repo not on allowlist") ≡ d =
          ground (arith, h, f) in
        let e : skip ≡ queue = ap (λ x. x.decision) q ∙ k in absurd (ground arith)
  ]

  -- A payload that `route` decides to queue is dispatched to the task that the decision names.
  pub dispatch-route :
      (d : RouteDecision)
      → route r event_type payload ≡ some d
      → d.decision ≡ queue
      → task_of (dispatch r.py_str event_type payload) ≡ d.task
  unfolding route
  dispatch-route d h k = named-repo (repo_full_name r payload) d h k
