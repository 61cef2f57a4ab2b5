-- ===== src/Robomp/Routing/Handlers/Trust.antt =====
-- src/robomp/github_events.py: whom `route` lets start a task, and whose comment is a directive.
use oh_my_robot.Prelude.{
  Text, codes, text_eq, Bool, true, false, not, Option, none, some, is_some, ◌≡◌, ◌⊎◌, inl, inr,
  refl, subst, ap, arith, if◌then◌else◌, Bool-cases,
}
use oh_my_robot.Robomp.Json.{Members, get, truthy, is_int, object_or_empty}
use oh_my_robot.Robomp.Accounts.{
  is_bot_account, submitter_info, effective_association, is_maintainer,
  is_implementation_authorizer,
}
use oh_my_robot.Robomp.Mentions.{extract_mention}
use oh_my_robot.Robomp.Pragmas.{parse_pragmas}
use oh_my_robot.Robomp.Routing.{
  queue, skip, Task, review_pr, Directive, RouteDecision, Router, skipped, queued_for,
  from_submitter, field, reviewer_bot_login, directive_of, directive_kwargs, comment_decision,
  pr_review_pr, mention_directive, directive_from,
}

-- A reviewer bot of the settings wrote the comment; its directives authorize no implementation.
pub record IsByReviewer (r : Router) (comment : Members) (directive : Directive) : Type 0 where
  pub reviewer : is_some directive.author ≡ true
  pub author_is : reviewer_bot_login r (get (codes "user") comment) ≡ directive.author
  pub no_authority : directive.authorizes_impl ≡ false

-- The login and the association of the comment's own author: the association that GitHub declares in
-- the comment, or OWNER where it declares none and the repository is the author's.
abbrev pub author_login : Members → Option Text
author_login comment = (submitter_info comment).0

abbrev pub author_association : Members → Members → Option Text
author_association payload comment =
    effective_association (author_login comment) (submitter_info comment).1
      (get (codes "repository") payload)

-- The comment's author is a maintainer and mentioned the bot in it.
pub record IsByMaintainer (r : Router) (payload comment : Members) (d : RouteDecision)
    (directive : Directive) : Type 0 where
  pub maintainer :
      is_maintainer r.maintainers (author_login comment) (author_association payload comment) ≡ true
  pub mentions : is_some (extract_mention (field r (codes "body") comment) r.bot_login) ≡ true
  pub author_is : directive.author ≡ author_login comment
  pub submitter_is : d.submitter ≡ author_login comment
  pub association_is : d.association ≡ author_association payload comment
  pub authority :
      directive.authorizes_impl
      ≡ is_implementation_authorizer r.maintainers
          (author_login comment)
          (author_association payload comment)

abbrev pub IsCommentOf : Members → Members → Type 0
IsCommentOf payload comment = object_or_empty (get (codes "comment") payload) ≡ some comment

abbrev pub IsAuthorized : Router → Members → RouteDecision → Directive → Type 0
IsAuthorized r payload d directive =
    (comment : Members) × IsCommentOf payload comment
    × (IsByReviewer r comment directive ⊎ IsByMaintainer r payload comment d directive)

-- A queued event has a task and an issue; a skipped one has no task, no submitter, no directive.
abbrev pub IsShaped : RouteDecision → Type 0
IsShaped d =
    ((d.decision ≡ queue) × (is_some d.task ≡ true) × (is_some d.issue_key ≡ true))
    ⊎ ((d.decision ≡ skip) × (d.task ≡ none) × (d.submitter ≡ none) × (d.directive ≡ none))

pub record IsRouted (r : Router) (payload : Members) (repo : Text) (d : RouteDecision)
    : Type 0 where
  pub in_repo : d.repo ≡ some repo
  pub shaped : IsShaped d
  pub authorized :
      (directive : Directive) → d.directive ≡ some directive → IsAuthorized r payload d directive

abbrev pub Holds : (RouteDecision → Type 0) → Option RouteDecision → Type 0
Holds P none = Unit
Holds P (some d) = P d

pub if-Holds :
    (P : RouteDecision → Type 0) (b : Bool) (x y : Option RouteDecision)
    → Holds P x
    → Holds P y
    → Holds P (if b then x else y)
if-Holds P true x y h k = h
if-Holds P false x y h k = k

pub if-either :
    (P : RouteDecision → Type 0) (b : Bool) (x y : RouteDecision)
    → P x
    → P y
    → P (if b then x else y)
if-either P true x y h k = h
if-either P false x y h k = k

module _ (r : Router) (payload : Members) (repo : Text) where
  abbrev P : RouteDecision → Type 0
  P = IsRouted r payload repo

  pub skipped-IsRouted : (key : Option Text) (reason : Text) → P (skipped (some repo) key reason)
  skipped-IsRouted key reason = record {
    in_repo = refl;
    shaped = inr (refl, refl, refl, refl);
    authorized = λ directive h. absurd (ground arith);
  }

  pub queued-IsRouted : (task : Task) (key reason : Text) → P (queued_for task repo key reason)
  queued-IsRouted task key reason = record {
    in_repo = refl;
    shaped = inl (refl, refl, refl);
    authorized = λ directive h. absurd (ground arith);
  }

  pub submitted-IsRouted :
      (task : Task) (key reason : Text) (who : Option Text × Option Text)
      → P (from_submitter (queued_for task repo key reason) who)
  submitted-IsRouted task key reason (login, association) = record {
    in_repo = refl;
    shaped = inl (refl, refl, refl);
    authorized = λ directive h. absurd (ground arith);
  }

  module _ (comment : Members) (d : RouteDecision) (by : d.submitter ≡ author_login comment)
      (as_what : d.association ≡ author_association payload comment) where
    abbrev login : Option Text
    login = author_login comment

    abbrev association : Option Text
    association = author_association payload comment

    mention-authority :
        (directive : Directive) (mention : Option Text)
        → extract_mention (field r (codes "body") comment) r.bot_login ≡ mention
        → is_maintainer r.maintainers login association ≡ true
        → mention_directive r login association mention ≡ some directive
        → IsByMaintainer r payload comment d directive
    mention-authority directive none e m h = absurd (ground arith)
    mention-authority directive (some stripped) e m h =
        let authorizes = is_implementation_authorizer r.maintainers login association in
        let q : directive_from r login authorizes (parse_pragmas stripped) ≡ directive =
          ground arith in
        subst (IsByMaintainer r payload comment d) q (record {
          maintainer = m;
          mentions = ap is_some e;
          author_is = refl;
          submitter_is = by;
          association_is = as_what;
          authority = refl;
        })

    directive_of-authority :
        (directive : Directive) (bot : Option Text)
        → reviewer_bot_login r (get (codes "user") comment) ≡ bot
        → directive_of r (field r (codes "body") comment) login association bot ≡ some directive
        → IsByReviewer r comment directive ⊎ IsByMaintainer r payload comment d directive
    directive_of-authority directive (some bot) e h =
        let body = field r (codes "body") comment in
        let q : directive_from r (some bot) false (parse_pragmas body) ≡ directive = ground arith in
        inl (
          subst (IsByReviewer r comment) q
            (record { reviewer = refl; author_is = e; no_authority = refl }))
    directive_of-authority directive none e h =
        elim (Bool-cases (is_maintainer r.maintainers login association)) [
          | inr f ↦ absurd (ground arith)
          | inl t ↦ inr (
              mention-authority directive
                (extract_mention (field r (codes "body") comment) r.bot_login) refl t
                (ground arith))
        ]

  pub comment_decision-IsRouted :
      (task : Task) (key reason : Text) (comment : Members)
      → IsCommentOf payload comment
      → P (comment_decision r payload task repo key reason comment)
  unfolding comment_decision directive_kwargs
  comment_decision-IsRouted task key reason comment c = record {
    in_repo = refl;
    shaped = inl (refl, refl, refl);
    authorized = λ directive h. (
      comment,
      c,
      directive_of-authority comment (comment_decision r payload task repo key reason comment) refl
          refl directive (reviewer_bot_login r (get (codes "user") comment)) refl h,
    );
  }

  pub pr_review_pr-IsRouted : (pr : Members) (action : Text) → P (pr_review_pr r pr repo action)
  unfolding pr_review_pr
  pr_review_pr-IsRouted pr action =
      let state = get (codes "state") pr in
      let number = get (codes "number") pr in
      if-either P
        (not (if truthy state then text_eq (field r (codes "state") pr) (codes "open") else true)) _
        _ (skipped-IsRouted none _)
        (if-either P (truthy (get (codes "draft") pr)) _ _ (skipped-IsRouted none _) (
          if-either P (is_bot_account r.py_str r.bot_login (get (codes "user") pr)) _ _
            (skipped-IsRouted none _)
            (if-either P (not (is_int number)) _ _ (skipped-IsRouted none _)
              (submitted-IsRouted review_pr _ _ (submitter_info pr)))))
